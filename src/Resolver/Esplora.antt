-- ===== src/Resolver/Esplora.antt =====
-- The resolver of src/resolvers/esplora_blocking.rs over the esplora client, which is a parameter.
use text.Mathlib.Text.{◌==◌ as str_eq}
use rgb.Base.{ℕ, String, Option, none, some, Result, ok, err, map_err, ok_or, ◌>>=◌, if◌then◌else◌}
use rgb.Chain.{bitcoin, Network, WitnessOrd, off_chain, on_chain, WitnessAnchor}
use rgb.Resolver.Api.{RgbResolver}

-- `TxStatus` of the client, as far as it is read
pub record TxStatus : Type 0 where
  pub block_height : Option ℕ
  pub block_time : Option ℕ

-- The client's error; `transaction_not_found` is told from the rest.
pub data Error (Other : Type 0) : Type 0 where
  transaction_not_found : ℕ → Error Other
  invalid_server_data : Error Other
  other_error : Other → Error Other

pub record EsploraApi : Type 1 where
  pub Client : Type 0
  pub Tx : Type 0
  pub WitnessPos : Type 0
  pub Other : Type 0
  pub block_hash : Client → ℕ → Result (Error Other) String
  pub tx_status : Client → ℕ → Result (Error Other) TxStatus
  pub get_tx : Client → ℕ → Result (Error Other) (Option Tx)
  pub to_string : Error Other → String
  -- `WitnessPos::new`
  pub new_pos : ℕ → ℕ → Option WitnessPos

-- `Option::and_then` and `Option::map` of `resolve_height`: both numbers, or nothing
unfoldable pub mined : TxStatus → Option (ℕ × ℕ)
mined s = elim s.block_height [
  | none ↦ none
  | some h ↦ elim s.block_time [ none ↦ none | some t ↦ some (h, t) ]
]

module _ (api : EsploraApi) where
  open api use {Client, Tx, WitnessPos, Other, block_hash, tx_status, get_tx, to_string, new_pos}

  unfoldable pub check : Client → Network → String → Result String (Unit {0})
  check c network expected_block_hash = do
    found ← map_err (block_hash c 0) to_string
    if str_eq expected_block_hash found
        then ok tt
        else err "resolver is for a network different from the wallet's one"

  unfoldable pub witness_ord : Option (ℕ × ℕ) → Result (Error Other) (WitnessOrd WitnessPos)
  witness_ord none = ok off_chain
  witness_ord (some (h, t)) = do pos ← ok_or (new_pos h t) invalid_server_data; ok (on_chain pos)

  unfoldable pub resolve_height : Client → ℕ → Client × Result String (WitnessAnchor WitnessPos)
  unfolding mined witness_ord
  resolve_height c txid = (
    c,
    (do
      status ← map_err (tx_status c txid) to_string
      ord ← map_err (witness_ord (mined status)) to_string
      ok (record { witness_ord = ord; witness_id = bitcoin txid })),
  )

  unfoldable pub tx_error : Error Other → Option String
  tx_error (transaction_not_found id) = none
  tx_error invalid_server_data = some (to_string invalid_server_data)
  tx_error (other_error e) = some (to_string (other_error e))

  unfoldable pub resolve_pub_witness : Client → ℕ → Result (Option String) Tx
  unfolding tx_error
  resolve_pub_witness c txid = do answer ← map_err (get_tx c txid) tx_error; ok_or answer none

  -- `impl RgbResolver for BlockingClient`
  unfoldable pub esplora_resolver : RgbResolver Client Tx WitnessPos
  unfolding check resolve_height resolve_pub_witness
  esplora_resolver = record {
    check = check;
    resolve_height = resolve_height;
    resolve_pub_witness = resolve_pub_witness;
  }
