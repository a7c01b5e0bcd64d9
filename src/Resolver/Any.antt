-- ===== src/Resolver/Any.antt =====
-- `AnyResolver` of src/resolvers/any.rs: a resolver that answers for the transactions of a
-- consignment by itself, and passes all else on.
use rgb.Base.{ℕ, String, Option, none, some, List, [], ◌∷◌, Result, ok, err, map_err, ◌>>=◌}
use rgb.Base.Key.{nat_key}
use rgb.Base.Map.{lookup, insert}
use rgb.Chain.{
  XChain, bitcoin, liquid, other, XWitnessId, Network, mainnet, testnet3, signet, regtest,
  WitnessAnchor, off_chain, WitnessError, unknown, failed,
}
use rgb.Resolver.Api.{RgbResolver}

pub record AnyResolver (S Tx : Type 0) : Type 0 where
  pub inner : S
  pub terminal_txes : List (ℕ × Tx)

-- `electrum_blocking` and `esplora_blocking`: `client` is what `from_config` returned, with its
-- error as text.
unfoldable pub from_client : {S Tx : Type 0} → Result String S → Result String (AnyResolver S Tx)
from_client client = do inner ← client; ok (record { inner = inner; terminal_txes = [] })

-- the hash of the genesis block of a network
unfoldable pub genesis_hash : Network → String
genesis_hash mainnet = "000000000019d6689c085ae165831e934ff763ae46a2a6c172b3f1b60a8ce26f"
genesis_hash testnet3 = "000000000933ea01ad0ee984209779baaec3ced90fa3f408719526f8d77f4943"
genesis_hash signet = "00000008819873e925422c1ff0f99f7cc9bbb232af63a077a480a3633bee1ef6"
genesis_hash regtest = "0f9188f13cb7b2c71f2a335e3a4fc328bf5beb436012afca590b1a11466e2206"

-- A bundle's public witness holds its transaction or not; `maybe_map_ref` keeps the layer.
unfoldable pub maybe_tx : {Tx : Type 0} → XChain (Option Tx) → Option (XChain Tx)
maybe_tx (bitcoin none) = none
maybe_tx (bitcoin (some tx)) = some (bitcoin tx)
maybe_tx (liquid none) = none
maybe_tx (liquid (some tx)) = some (liquid tx)
maybe_tx (other none) = none
maybe_tx (other (some tx)) = some (other tx)

-- the second `filter_map` of `add_terminals`
unfoldable pub bitcoin_tx : {Tx : Type 0} → Option (XChain Tx) → Option Tx
bitcoin_tx none = none
bitcoin_tx (some (bitcoin tx)) = some tx
bitcoin_tx (some (liquid tx)) = none
bitcoin_tx (some (other tx)) = none

-- `not_layer1` is the text of the error for another layer.
module _ {S Tx Pos : Type 0} (api : RgbResolver S Tx Pos) (txid : Tx → ℕ)
    (not_layer1 : XWitnessId → String) where
  unfoldable pub check : AnyResolver S Tx → Network → Result String (Unit {0})
  unfolding genesis_hash
  check r network = api.check r.inner network (genesis_hash network)

  -- `HashMap::extend` by the pairs of an id and its transaction; the witnesses are those of the
  -- consignment's bundles, in order.
  unfoldable pub extend : List (ℕ × Tx) → List (XChain (Option Tx)) → List (ℕ × Tx)
  unfolding maybe_tx bitcoin_tx
  extend m [] = m
  extend m (w ∷ rest) = elim (bitcoin_tx (maybe_tx w)) [
    | none ↦ extend m rest
    | some tx ↦ extend (insert (txid tx) tx m) rest
  ]

  unfoldable pub add_terminals : AnyResolver S Tx → List (XChain (Option Tx)) → AnyResolver S Tx
  unfolding extend
  add_terminals r witnesses = record r { terminal_txes = extend r.terminal_txes witnesses }

  unfoldable pub resolve_height :
      AnyResolver S Tx → XWitnessId → AnyResolver S Tx × Result String (WitnessAnchor Pos)
  resolve_height r (bitcoin id) = elim (lookup id r.terminal_txes) [
    | some tx ↦ (r, ok (record { witness_ord = off_chain; witness_id = bitcoin id }))
    | none ↦
        let (inner, answer) = api.resolve_height r.inner id in (record r { inner = inner }, answer)
  ]
  resolve_height r (liquid id) = (r, err (not_layer1 (liquid id)))
  resolve_height r (other id) = (r, err (not_layer1 (other id)))

  -- the `map_err` at the end of `resolve_pub_witness`
  abbrev witness_error : ℕ → Option String → WitnessError
  witness_error id none = unknown (bitcoin id)
  witness_error id (some e) = failed (bitcoin id) e

  unfoldable pub resolve_pub_witness :
      AnyResolver S Tx → XWitnessId → Result WitnessError (XChain Tx)
  resolve_pub_witness r (bitcoin id) = elim (lookup id r.terminal_txes) [
    | some tx ↦ ok (bitcoin tx)
    | none ↦
        map_err (api.resolve_pub_witness r.inner id >>= λ tx. ok (bitcoin tx)) (witness_error id)
  ]
  resolve_pub_witness r (liquid id) = err (failed (liquid id) (not_layer1 (liquid id)))
  resolve_pub_witness r (other id) = err (failed (other id) (not_layer1 (other id)))
