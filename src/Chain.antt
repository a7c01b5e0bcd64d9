-- ===== src/Chain.antt =====
-- Chain data from the bp and rgbstd crates: a transaction id is its number, an outpoint a
-- transaction id and an output number, and `Bitcoin`, `Liquid` and `Other` are the layers of an
-- `XChain`.
use rgb.Base.{ℕ, String, Bool, true, false, ◌≡◌, ◌↔◌, arith}
use rgb.Base.Key.{Key, ◌===◌, nat_key, pair_key}

pub data XChain (A : Type 0) : Type 0 where
  bitcoin liquid other : A → XChain A

abbrev pub XWitnessId : Type 0
XWitnessId = XChain ℕ

pub data Network : Type 0 where
  mainnet testnet3 signet regtest : Network

-- where a witness transaction stands; `Pos` is `WitnessPos`
pub data WitnessOrd (Pos : Type 0) : Type 0 where
  off_chain : WitnessOrd Pos
  on_chain : Pos → WitnessOrd Pos

pub record WitnessAnchor (Pos : Type 0) : Type 0 where
  pub witness_ord : WitnessOrd Pos
  pub witness_id : XWitnessId

-- `WitnessResolverError`
pub data WitnessError : Type 0 where
  unknown : XWitnessId → WitnessError
  failed : XWitnessId → String → WitnessError

abbrev pub Outpoint : Type 0
Outpoint = ℕ × ℕ

abbrev pub XOutpoint : Type 0
XOutpoint = XChain Outpoint

pub data AssignmentWitness : Type 0 where
  absent : AssignmentWitness
  present : XWitnessId → AssignmentWitness

module _ {A : Type 0} ⦃a : Key A⦄ where
  abbrev pub chain_beq : XChain A → XChain A → Bool
  chain_beq (bitcoin x) (bitcoin y) = x === y
  chain_beq (liquid x) (liquid y) = x === y
  chain_beq (other x) (other y) = x === y
  chain_beq _ _ = false

  abbrev pub chain_before : XChain A → XChain A → Bool
  chain_before (bitcoin x) (bitcoin y) = a.before x y
  chain_before (bitcoin x) (liquid y) = true
  chain_before (bitcoin x) (other y) = true
  chain_before (liquid x) (bitcoin y) = false
  chain_before (liquid x) (liquid y) = a.before x y
  chain_before (liquid x) (other y) = true
  chain_before (other x) (other y) = a.before x y
  chain_before _ _ = false

  pub chain_beq_iff : (x y : XChain A) → (chain_beq x y ≡ true) ↔ (x ≡ y)
  chain_beq_iff (bitcoin x) (bitcoin y) = ground (arith, a.beq_iff x y)
  chain_beq_iff (liquid x) (liquid y) = ground (arith, a.beq_iff x y)
  chain_beq_iff (other x) (other y) = ground (arith, a.beq_iff x y)
  chain_beq_iff (bitcoin x) (liquid y) = ground arith
  chain_beq_iff (bitcoin x) (other y) = ground arith
  chain_beq_iff (liquid x) (bitcoin y) = ground arith
  chain_beq_iff (liquid x) (other y) = ground arith
  chain_beq_iff (other x) (bitcoin y) = ground arith
  chain_beq_iff (other x) (liquid y) = ground arith

  -- bitcoin comes before liquid, and liquid before the rest
  instance abbrev pub chain_key : Key (XChain A)
  chain_key = record { beq = chain_beq; before = chain_before; beq_iff = chain_beq_iff }

abbrev pub witness_beq : AssignmentWitness → AssignmentWitness → Bool
witness_beq absent absent = true
witness_beq (present x) (present y) = x === y
witness_beq _ _ = false
