-- ===== src/Resolver/Terminals.antt =====
-- The terminal transactions of `AnyResolver` of src/resolvers/any.rs.
use rgb.Base.{
  ℕ, String, ◌==◌, ◌≡◌, refl, Option, none, some, List, [], ◌∷◌, ok, arith, if◌then◌else◌, or_else,
}
use rgb.Base.Key.{nat_key}
use rgb.Base.Map.{lookup, insert, lookup-insert}
use rgb.Chain.{XChain, bitcoin, liquid, other, XWitnessId, off_chain}
use rgb.Resolver.Api.{RgbResolver}
use rgb.Resolver.Any.{AnyResolver, extend, add_terminals, resolve_height, resolve_pub_witness}

-- The last transaction on the bitcoin layer with an id among the witnesses of a consignment.
abbrev pub last_tx : {Tx : Type 0} → (Tx → ℕ) → ℕ → List (XChain (Option Tx)) → Option Tx
last_tx txid id [] = none
last_tx txid id (bitcoin (some tx) ∷ rest) =
    or_else (last_tx txid id rest) (if txid tx == id then some tx else none)
last_tx txid id (_ ∷ rest) = last_tx txid id rest

last_tx_id :
    {Tx : Type 0} (txid : Tx → ℕ) (id : ℕ) (ws : List (XChain (Option Tx))) (tx : Tx)
    → last_tx txid id ws ≡ some tx
    → txid tx ≡ id
last_tx_id txid id [] tx h = cc
last_tx_id txid id (bitcoin none ∷ rest) tx h = last_tx_id txid id rest tx h
last_tx_id txid id (bitcoin (some t) ∷ rest) tx h = ground (arith, last_tx_id txid id rest tx)
last_tx_id txid id (liquid w ∷ rest) tx h = last_tx_id txid id rest tx h
last_tx_id txid id (other w ∷ rest) tx h = last_tx_id txid id rest tx h

module _ {S Tx Pos : Type 0} (api : RgbResolver S Tx Pos) (txid : Tx → ℕ)
    (not_layer1 : XWitnessId → String) where
  lookup-extend :
      (m : List (ℕ × Tx)) (ws : List (XChain (Option Tx))) (id : ℕ)
      → lookup id (extend api txid not_layer1 m ws) ≡ or_else (last_tx txid id ws) (lookup id m)
  unfolding extend
  lookup-extend m [] id = refl
  lookup-extend m (bitcoin none ∷ ws) id = lookup-extend m ws id
  lookup-extend m (liquid none ∷ ws) id = lookup-extend m ws id
  lookup-extend m (liquid (some t) ∷ ws) id = lookup-extend m ws id
  lookup-extend m (other none ∷ ws) id = lookup-extend m ws id
  lookup-extend m (other (some t) ∷ ws) id = lookup-extend m ws id
  lookup-extend m (bitcoin (some tx) ∷ ws) id =
      ground (arith, lookup-extend (insert (txid tx) tx m) ws id, lookup-insert (txid tx) id tx m)

  -- Once the terminals of a consignment have been added, a witness id that one of its bitcoin
  -- transactions has is answered as off-chain, with no call of the inner resolver, and with a
  -- transaction of that very id.
  pub resolve-add_terminals :
      (r : AnyResolver S Tx) (ws : List (XChain (Option Tx))) (id : ℕ) (tx : Tx)
      → last_tx txid id ws ≡ some tx
      → let r' = add_terminals api txid not_layer1 r ws in
        (resolve_height api txid not_layer1 r' (bitcoin id)
          ≡ (r', ok (record { witness_ord = off_chain; witness_id = bitcoin id })))
        × (resolve_pub_witness api txid not_layer1 r' (bitcoin id) ≡ ok (bitcoin tx))
        × (txid tx ≡ id)
  unfolding add_terminals resolve_height resolve_pub_witness
  resolve-add_terminals r ws id tx h =
      let at = lookup-extend r.terminal_txes ws id in
      (ground (arith, at), ground (arith, at), last_tx_id txid id ws tx h)

  -- A witness id that no bitcoin transaction of a consignment has is answered, once the terminals
  -- of the consignment have been added, as it was before.
  pub resolve-add_terminals_other :
      (r : AnyResolver S Tx) (ws : List (XChain (Option Tx))) (id : ℕ)
      → last_tx txid id ws ≡ none
      → let r' = add_terminals api txid not_layer1 r ws in
        ((resolve_height api txid not_layer1 r' (bitcoin id)).1
          ≡ (resolve_height api txid not_layer1 r (bitcoin id)).1)
        × (resolve_pub_witness api txid not_layer1 r' (bitcoin id)
            ≡ resolve_pub_witness api txid not_layer1 r (bitcoin id))
  unfolding add_terminals resolve_height resolve_pub_witness
  resolve-add_terminals_other r ws id h =
      let at = lookup-extend r.terminal_txes ws id in (ground (arith, at), ground (arith, at))
