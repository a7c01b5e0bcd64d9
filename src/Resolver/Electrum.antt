-- ===== src/Resolver/Electrum.antt =====
-- The resolver of src/resolvers/electrum_blocking.rs over the electrum client, which is a parameter.
-- `overflow_checks` says whether the build panics where `tip_height - confirmations` wraps around.
use Prim.Native.Nat.{ℕ}
use text.Mathlib.Text.{◌==◌ as str_eq, find?}
use rgb.Base.{
  suc, zero, String, Bool, Option, none, some, List, [], ◌∷◌, ◌++◌, ◌+◌, ◌-◌, ◌^◌, Result, ok, err,
  panic, map_err, ok_or, ◌>>=◌, if◌then◌else◌, ltb, leb, is_some,
}
use rgb.Chain.{
  bitcoin, Network, mainnet, testnet3, signet, regtest, off_chain, on_chain, WitnessAnchor,
}
use rgb.Resolver.Api.{RgbResolver}

pub record ElectrumApi : Type 1 where
  pub Client : Type 0
  pub Error : Type 0
  pub Json : Type 0
  pub I64 : Type 0
  pub Tx : Type 0
  pub Raw : Type 0
  pub WitnessPos : Type 0
  pub to_string : Error → String
  pub invalid_response : Json → Error
  pub show_txid : ℕ → String
  -- the hash of the header of a block, as text
  pub block_hash : Client → ℕ → Result Error String
  -- the height of the tip; the call subscribes the client to new headers
  pub block_headers_subscribe : Client → Client × Result Error ℕ
  -- one header that was announced, if there is any
  pub block_headers_pop : Client → Client × Result Error (Option ℕ)
  -- `raw_call("blockchain.transaction.get", [txid, true])`
  pub transaction_get_verbose : Client → String → Client × Result Error Json
  pub get : Json → String → Option Json
  pub as_u64 : Json → Option ℕ
  pub as_i64 : Json → Option I64
  -- the block height of the Merkle proof of a transaction at a height
  pub transaction_get_merkle : Client → ℕ → ℕ → Result Error ℕ
  pub transaction_get_raw : Client → ℕ → Result Error Raw
  -- `Tx::consensus_deserialize`, with the error already formatted
  pub consensus_deserialize : Raw → Result String Tx
  -- `WitnessPos::new`
  pub new_pos : ℕ → I64 → Option WitnessPos

-- `str::contains`
abbrev pub contains_text : String → String → Bool
contains_text s pattern = is_some (find? s pattern)

-- the first to the last height after the expected one, then the two of the safety margin
abbrev pub from_to : ℕ → ℕ → List ℕ
from_to first zero = []
from_to first (suc n) = first ∷ from_to (first + 1) n

unfoldable pub offsets : ℕ → List ℕ
offsets forward = from_to 1 (forward + 1) ++ (1 + forward + 1) ∷ 0 ∷ []

-- `u32::try_from`
abbrev pub try_u32 : ℕ → Option ℕ
try_u32 n = if ltb n (2 ^ 32) then some n else none

-- `a - b` on `u32`
unfoldable pub sub_u32 : {E : Type 0} → Bool → ℕ → ℕ → Result E ℕ
sub_u32 checks a b = if leb b a then ok (a - b) else if checks then panic else ok (a + 2 ^ 32 - b)

-- a transaction that the server is asked for to see whether it returns verbose transactions
unfoldable pub probe_txid : Network → String
probe_txid mainnet = "33e794d097969002ee05d336686fc03c9e15a597c1b9827669460fac98799036"
probe_txid testnet3 = "5e6560fd518aadbed67ee4a55bdc09f19e619544f5511e9343ebba66d2f62653"
probe_txid signet = "8153034f45e695453250a8fb7225a5e545144071d8ed7b0d3211efa1f3c92ad8"
probe_txid regtest = "4a5e1e4baab89f3a32518a88c31bc87f618f76673e2cc77ab2127b7afdeda33b"

abbrev pub no_such_tx : String
no_such_tx = "No such mempool or blockchain transaction"

abbrev pub genesis_coinbase : String
genesis_coinbase = "genesis block coinbase is not considered an ordinary transaction"

module _ (api : ElectrumApi) (overflow_checks : Bool) where
  open api use {
    Client, Error, Json, Tx, Raw, WitnessPos, to_string, invalid_response, show_txid, block_hash,
    block_headers_subscribe, block_headers_pop, transaction_get_verbose, get, as_u64, as_i64,
    transaction_get_merkle, transaction_get_raw, consensus_deserialize, new_pos,
  }

  abbrev verbose_supported : Result Error Json → Result String (Unit {0})
  verbose_supported (ok v) = ok tt
  verbose_supported panic = panic
  verbose_supported (err e) =
      if contains_text (to_string e) genesis_coinbase
      then ok tt
      else err "verbose transactions are unsupported by the provided electrum service"

  unfoldable pub check : Client → Network → String → Result String (Unit {0})
  unfolding probe_txid
  check c network expected_block_hash = do
    found ← map_err (block_hash c 0) to_string
    if str_eq expected_block_hash found
        then verbose_supported (transaction_get_verbose c (probe_txid network)).1
        else err "resolver is for a network different from the wallet's one"

  -- The loop that counts the headers announced meanwhile, on fuel: `none` means that the fuel ran
  -- out.
  unfoldable pub count_headers : ℕ → Client → Option (Client × ℕ)
  count_headers zero c = none
  count_headers (suc fuel) c =
      let (c', popped) = block_headers_pop c in
      elim popped [
        | ok (some header) ↦ elim (count_headers fuel c') [
          | none ↦ none
          | some (d, n) ↦ some (d, n + 1)
        ]
        | ok none ↦ some (c', 0)
        | err e ↦ some (c', 0)
        | panic ↦ some (c', 0)
      ]

  -- `find_map` over the offsets: the first Merkle proof that the server has
  unfoldable pub find_merkle : Client → ℕ → ℕ → List ℕ → Option ℕ
  find_merkle c txid height [] = none
  find_merkle c txid height (offset ∷ rest) =
      elim (transaction_get_merkle c txid (height + offset)) [
        | ok block_height ↦ some block_height
        | err e ↦ find_merkle c txid height rest
        | panic ↦ find_merkle c txid height rest
      ]

  abbrev pub anchor_off_chain : ℕ → WitnessAnchor WitnessPos
  anchor_off_chain txid = record { witness_ord = off_chain; witness_id = bitcoin txid }

  abbrev pub invalid : {A : Type 0} → Json → Option A → Result String A
  invalid details o = map_err (ok_or o (invalid_response details)) to_string

  abbrev and_then_u32 : Option ℕ → Option ℕ
  and_then_u32 none = none
  and_then_u32 (some n) = try_u32 n

  abbrev and_then_i64 : Option Json → Option api.I64
  and_then_i64 none = none
  and_then_i64 (some v) = as_i64 v

  -- what `resolve_height` does once it has the transaction and the number of new headers
  unfoldable pub locate :
      Client → ℕ → ℕ → ℕ → Json → Option Json → Result String (WitnessAnchor WitnessPos)
  unfolding offsets sub_u32 find_merkle
  locate c txid tip forward details none = ok (anchor_off_chain txid)
  locate c txid tip forward details (some v) = do
    confirmations ← invalid details (and_then_u32 (as_u64 v))
    block_time ← invalid details (and_then_i64 (get details "blocktime"))
    tip_height ← ok_or (try_u32 tip) "impossible height value"
    height ← sub_u32 overflow_checks tip_height confirmations
    merkle ←
        ok_or (find_merkle c txid height (offsets forward))
          "transaction can't be located in the blockchain"
    tx_height ← ok_or (try_u32 merkle) "impossible height value"
    pos ← invalid details (new_pos tx_height block_time)
    ok (record { witness_ord = on_chain pos; witness_id = bitcoin txid })

  -- after the call for the verbose transaction; out of fuel counts as a panic
  unfoldable pub after_get :
      ℕ → Client → ℕ → ℕ → Result Error Json → Client × Result String (WitnessAnchor WitnessPos)
  unfolding locate count_headers
  after_get fuel c txid tip (err e) = (
    c,
    if contains_text (to_string e) no_such_tx
        then ok (anchor_off_chain txid)
        else err (to_string e),
  )
  after_get fuel c txid tip panic = (c, panic)
  after_get fuel c txid tip (ok details) = elim (count_headers fuel c) [
    | none ↦ (c, panic)
    | some (d, forward) ↦ (d, locate d txid tip forward details (get details "confirmations"))
  ]

  abbrev pub after_subscribe :
      ℕ → Client → ℕ → Result Error ℕ → Client × Result String (WitnessAnchor WitnessPos)
  after_subscribe fuel c txid (err e) = (c, err (to_string e))
  after_subscribe fuel c txid panic = (c, panic)
  after_subscribe fuel c txid (ok tip) =
      let (d, details) = transaction_get_verbose c (show_txid txid) in
      after_get fuel d txid tip details

  unfoldable pub resolve_height : ℕ → Client → ℕ → Client × Result String (WitnessAnchor WitnessPos)
  unfolding after_get
  resolve_height fuel c txid =
      let (d, header) = block_headers_subscribe c in after_subscribe fuel d txid header

  abbrev raw_error : Error → Option String
  raw_error e = if contains_text (to_string e) no_such_tx then none else some (to_string e)

  unfoldable pub resolve_pub_witness : Client → ℕ → Result (Option String) Tx
  resolve_pub_witness c txid = do
    raw_tx ← map_err (transaction_get_raw c txid) raw_error
    map_err (consensus_deserialize raw_tx) some

  -- `impl RgbResolver for Client`
  unfoldable pub electrum_resolver : ℕ → RgbResolver Client Tx WitnessPos
  unfolding check resolve_height resolve_pub_witness
  electrum_resolver fuel = record {
    check = check;
    resolve_height = resolve_height fuel;
    resolve_pub_witness = resolve_pub_witness;
  }
