-- ===== src/Wallet/Filter.antt =====
-- `WalletWrapper` of src/wallet.rs: which outputs and witnesses belong to a wallet. A wallet of
-- bpwallet is its descriptor, its coins and its transactions.
use rgb.Base.{ℕ, Bool, List, map, any}
use rgb.Base.Key.{nat_key, pair_key, ◌===◌}
use rgb.Chain.{bitcoin, Outpoint, XOutpoint, chain_key, AssignmentWitness, present, witness_beq}

pub record Coin (Rest : Type 0) : Type 0 where
  pub outpoint : Outpoint
  pub rest : Rest

pub record Wallet (Descr Rest Row : Type 0) : Type 0 where
  pub descr : Descr
  pub coins : List (Coin Rest)
  pub transactions : List (ℕ × Row)

module _ {Descr Rest Row : Type 0} where
  -- `impl WalletProvider for Wallet` of src/pay.rs
  unfoldable pub outpoints : Wallet Descr Rest Row → List Outpoint
  outpoints w = map (λ c. c.outpoint) w.coins

  unfoldable pub txids : Wallet Descr Rest Row → List ℕ
  txids w = map (λ t. t.0) w.transactions

  unfoldable pub descriptor_mut :
      {A : Type 0} → Wallet Descr Rest Row → (Descr → Descr × A) → Wallet Descr Rest Row × A
  descriptor_mut w body = let (descr, a) = body w.descr in (record w { descr = descr }, a)

  unfoldable pub include_outpoint : Wallet Descr Rest Row → XOutpoint → Bool
  unfolding outpoints
  include_outpoint w output = any (λ outpoint. bitcoin outpoint === output) (outpoints w)

  unfoldable pub include_witness : Wallet Descr Rest Row → AssignmentWitness → Bool
  unfolding txids
  include_witness w witness = any (λ txid. witness_beq (present (bitcoin txid)) witness) (txids w)
