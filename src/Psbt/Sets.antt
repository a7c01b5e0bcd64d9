-- ===== src/Psbt/Sets.antt =====
-- `rgb_contract_consumers` of psbt/src/rgb.rs against `rgb_consumer` of each input.
use rgb.Base.{
  ℕ, zero, suc, ◌+◌, ◌%◌, ◌^◌, ◌≤◌, ◌<◌, Bool, true, false, ◌&&◌, ◌||◌, ◌==◌, ◌≡◌, ◌↔◌, refl,
  Option, none, some, List, [], ◌∷◌, Result, ok, err, panic, arith, length, get_elem?, >>=-eq-ok,
}
use rgb.Base.Key.{nat_key, pair_key}
use rgb.Base.Map.{contains, contains-add}
use rgb.Psbt.Api.{FromSliceError, Input, KeyApi}
use rgb.Psbt.Consumer.{rgb_consumer}
use rgb.Psbt.Inputs.{insert_consumer, consumers_from, rgb_contract_consumers}

abbrev pub is_value : ℕ → Result FromSliceError (Option ℕ) → Bool
is_value opid (ok (some id)) = id == opid
is_value opid _ = false

pub is_value_iff :
    (opid : ℕ) (r : Result FromSliceError (Option ℕ))
    → (is_value opid r ≡ true) ↔ (r ≡ ok (some opid))
is_value_iff opid (ok (some id)) = ground arith
is_value_iff opid (ok none) = ground arith
is_value_iff opid (err e) = ground arith
is_value_iff opid panic = ground arith

module _ (api : KeyApi) (contract_id : ℕ) where
  -- input number `v` of the inputs that are counted from `n` has the consumer
  abbrev pub hit : ℕ → List Input → ℕ → ℕ → Bool
  hit n [] opid v = false
  hit n (x ∷ l) opid v =
      (is_value opid (rgb_consumer api x contract_id) && (n % 2 ^ 32) == v) || hit (n + 1) l opid v

  contains-consumers_from :
      (n : ℕ) (l : List Input) (acc s : List (ℕ × ℕ)) (opid v : ℕ)
      → consumers_from api n l contract_id acc ≡ ok s
      → contains (opid, v) s ≡ (contains (opid, v) acc || hit n l opid v)
  unfolding consumers_from
  contains-consumers_from n [] acc s opid v h = ground arith
  contains-consumers_from n (x ∷ l) acc s opid v h =
      let (o, read, rest) =
        >>=-eq-ok (rgb_consumer api x contract_id)
          (λ o. consumers_from api (n + 1) l contract_id (insert_consumer api o n acc)) h in
      contains_step n x l acc s opid v o read
        (contains-consumers_from (n + 1) l (insert_consumer api o n acc) s opid v rest)
    where
      contains_step :
          (n : ℕ) (x : Input) (l : List Input) (acc s : List (ℕ × ℕ)) (opid v : ℕ) (o : Option ℕ)
          → rgb_consumer api x contract_id ≡ ok o
          → contains (opid, v) s
            ≡ (contains (opid, v) (insert_consumer api o n acc) || hit (n + 1) l opid v)
          → contains (opid, v) s ≡ (contains (opid, v) acc || hit n (x ∷ l) opid v)
      contains_step n x l acc s opid v none read ih = ground arith
      contains_step n x l acc s opid v (some id) read ih =
          ground (arith, contains-add (id, n % 2 ^ 32) (opid, v) acc)

  hit_below :
      (n : ℕ) (l : List Input) (opid v : ℕ) → n + length l ≤ 2 ^ 32 → v < n → hit n l opid v ≡ false
  hit_below n [] opid v b h = refl
  hit_below n (x ∷ l) opid v b h = ground (arith, hit_below (n + 1) l opid v)

  hit_at :
      (n : ℕ) (l : List Input) (opid i : ℕ) (x : Input)
      → n + length l ≤ 2 ^ 32
      → get_elem? l i ≡ some x
      → hit n l opid (n + i) ≡ is_value opid (rgb_consumer api x contract_id)
  hit_at n [] opid i x b h = cc
  hit_at n (y ∷ l) opid zero x b h = ground (arith, hit_below (n + 1) l opid n)
  hit_at n (y ∷ l) opid (suc i) x b h =
      let e : n + 1 + i ≡ n + suc i = omega arith in
      ground (arith, rw e at (hit_at (n + 1) l opid i x (omega arith) h))

  -- The consumers of a contract are exactly the pairs of the operation that an input names for the
  -- contract and the number of that input, if the inputs are no more than `u32` can count.
  pub rgb_contract_consumers_lem :
      (inputs : List Input) (s : List (ℕ × ℕ)) (opid i : ℕ) (x : Input)
      → length inputs ≤ 2 ^ 32
      → rgb_contract_consumers api inputs contract_id ≡ ok s
      → get_elem? inputs i ≡ some x
      → (contains (opid, i) s ≡ true) ↔ (rgb_consumer api x contract_id ≡ ok (some opid))
  unfolding rgb_contract_consumers
  rgb_contract_consumers_lem inputs s opid i x b h at =
      let e : 0 + i ≡ i = omega arith in
      ground (
        arith,
        contains-consumers_from 0 inputs [] s opid i h,
        rw e at (hit_at 0 inputs opid i x (omega arith) at),
        is_value_iff opid (rgb_consumer api x contract_id),
      )
