-- ===== src/Pay/Covered.antt =====
-- The sums of the outputs that `construct_psbt_rgb` of src/pay.rs chooses for an amount.
use mathlib.Core.List.{reverse, reverse-append}
use rgb.Base.{
  ℕ, ◌+◌, ◌^◌, ◌≤◌, ◌<◌, ◌≡◌, refl, sym, ap, ◌∙◌, Bool, true, List, [], ◌∷◌, ◌++◌, map,
  if◌then◌else◌, leb, arith, Bool-cases, inl, inr,
}
use rgb.Base.Key.{Key}
use rgb.Base.Map.{contains, to_set, contains-to_set}
use rgb.Pay.Select.{
  Allocation, AmountApi, push_amount, group, sum_from, with_sums, insert_sorted, sort_by_sum,
  take_enough, seal_of, spent_entries, prev_outputs_amount,
}

abbrev pub sum : List ℕ → ℕ
sum [] = 0
sum (v ∷ vals) = v + sum vals

sum-append : (xs ys : List ℕ) → sum (xs ++ ys) ≡ sum xs + sum ys
sum-append [] ys = omega arith
sum-append (x ∷ xs) ys = omega (arith, sum-append xs ys)

module _ {Seal : Type 0} where
  -- the amounts of the allocations whose seals pass
  abbrev pub allocated : (Seal → Bool) → List (Allocation Seal ℕ) → ℕ
  allocated q [] = 0
  allocated q (a ∷ rest) = (if q a.seal then a.state else 0) + allocated q rest

  abbrev grouped : (Seal → Bool) → List (Seal × List ℕ) → ℕ
  grouped q [] = 0
  grouped q ((s, vals) ∷ m) = (if q s then sum vals else 0) + grouped q m

  abbrev pub listed : (Seal → Bool) → List (ℕ × Seal × List ℕ) → ℕ
  listed q [] = 0
  listed q (x ∷ xs) = (if q x.1 then x.0 else 0) + listed q xs

  listed-append :
      (q : Seal → Bool) (xs ys : List (ℕ × Seal × List ℕ))
      → listed q (xs ++ ys) ≡ listed q xs + listed q ys
  listed-append q [] ys = omega arith
  listed-append q (x ∷ xs) ys = omega (arith, listed-append q xs ys)

  listed-reverse :
      (q : Seal → Bool) (xs : List (ℕ × Seal × List ℕ)) → listed q (reverse xs) ≡ listed q xs
  listed-reverse q [] = refl
  listed-reverse q (x ∷ xs) =
      ap (listed q) (reverse-append (x ∷ []) xs)
      ∙ listed-append q (reverse xs) (x ∷ [])
      ∙ omega (arith, listed-reverse q xs)

module _ {Seal : Type 0} ⦃k : Key Seal⦄ where
  grouped-push_amount :
      (q : Seal → Bool) (seal : Seal) (a : ℕ) (m : List (Seal × List ℕ))
      → grouped q (push_amount seal a m) ≡ (if q seal then a else 0) + grouped q m
  unfolding push_amount
  grouped-push_amount q seal a [] = ground arith
  grouped-push_amount q seal a ((s, vals) ∷ m) =
      ground (arith, k.beq_iff s seal, sum-append vals (a ∷ []), grouped-push_amount q seal a m)

  grouped-group :
      (q : Seal → Bool) (m : List (Seal × List ℕ)) (allocs : List (Allocation Seal ℕ))
      → grouped q (group m allocs) ≡ grouped q m + allocated q allocs
  unfolding group
  grouped-group q m [] = omega arith
  grouped-group q m (a ∷ rest) = omega (
    arith,
    grouped-group q (push_amount a.seal a.state m) rest,
    grouped-push_amount q a.seal a.state m,
  )

abbrev pub everything : {Seal : Type 0} → Seal → Bool
everything s = true

module _ (amounts : AmountApi) where
  open amounts use {plus, plus_lem}

  sum_from_lem :
      (acc : ℕ) (vals : List ℕ)
      → acc + sum vals < 2 ^ 64
      → sum_from amounts acc vals ≡ acc + sum vals
  unfolding sum_from
  sum_from_lem acc [] h = omega arith
  sum_from_lem acc (v ∷ vals) h =
      let e : plus acc v ≡ acc + v = plus_lem acc v (omega arith) in
      rw e (sum_from_lem (acc + v) vals (omega arith) ∙ omega arith)

module _ {Seal : Type 0} ⦃k : Key Seal⦄ (amounts : AmountApi) where
  open amounts use {plus, plus_lem}

  listed-with_sums :
      (q : Seal → Bool) (m : List (Seal × List ℕ))
      → grouped everything m < 2 ^ 64
      → listed q (with_sums amounts m) ≡ grouped q m
  unfolding with_sums
  listed-with_sums q [] h = refl
  listed-with_sums q ((s, vals) ∷ m) h =
      ground (arith, sum_from_lem amounts 0 vals, listed-with_sums q m)

  listed-insert_sorted :
      (q : Seal → Bool) (x : ℕ × Seal × List ℕ) (ys : List (ℕ × Seal × List ℕ))
      → listed q (insert_sorted amounts x ys) ≡ listed q (x ∷ ys)
  unfolding insert_sorted
  listed-insert_sorted q x [] = refl
  listed-insert_sorted q x (y ∷ ys) = ground (arith, listed-insert_sorted q x ys)

  listed-sort_by_sum :
      (q : Seal → Bool) (xs : List (ℕ × Seal × List ℕ))
      → listed q (sort_by_sum amounts xs) ≡ listed q xs
  unfolding sort_by_sum
  listed-sort_by_sum q [] = refl
  listed-sort_by_sum q (x ∷ xs) =
      listed-insert_sorted q x (sort_by_sum amounts xs) ∙ omega (arith, listed-sort_by_sum q xs)

  -- all entries, the largest first
  abbrev pub entries : List (Allocation Seal ℕ) → List (ℕ × Seal × List ℕ)
  entries allocs = reverse (sort_by_sum amounts (with_sums amounts (group [] allocs)))

  pub listed-entries :
      (q : Seal → Bool) (allocs : List (Allocation Seal ℕ))
      → allocated everything allocs < 2 ^ 64
      → listed q (entries allocs) ≡ allocated q allocs
  listed-entries q allocs h =
      listed-reverse q (sort_by_sum amounts (with_sums amounts (group [] allocs)))
      ∙ listed-sort_by_sum q (with_sums amounts (group [] allocs))
      ∙ listed-with_sums q (group [] allocs) (omega (arith, grouped-group everything [] allocs))
      ∙ omega (arith, grouped-group q [] allocs)

  take_enough-covers :
      (amount acc : ℕ) (xs : List (ℕ × Seal × List ℕ))
      → acc + listed everything xs < 2 ^ 64
      → amount ≤ acc + listed everything xs
      → amount ≤ acc + listed everything (take_enough amounts amount acc xs)
  unfolding take_enough
  take_enough-covers amount acc [] b h = omega arith
  take_enough-covers amount acc (x ∷ xs) b h =
      let e : plus acc x.0 ≡ acc + x.0 = plus_lem acc x.0 (omega arith) in
      ground (arith, take_enough-covers amount (plus acc x.0) xs)

  take_enough-prefix :
      (amount acc : ℕ) (xs : List (ℕ × Seal × List ℕ))
      → (rest : List (ℕ × Seal × List ℕ)) × (take_enough amounts amount acc xs ++ rest ≡ xs)
  unfolding take_enough
  take_enough-prefix amount acc [] = ([], refl)
  take_enough-prefix amount acc (x ∷ xs) = elim (Bool-cases (leb amount acc)) [
    | inl stop ↦ (x ∷ xs, rw stop)
    | inr go ↦
        let (rest, e) = take_enough-prefix amount (plus acc x.0) xs in (rest, rw go (ap (◌∷◌ x) e))
  ]

  listed-all :
      (set : List Seal) (xs : List (ℕ × Seal × List ℕ))
      → ((s : Seal) → contains s (map (seal_of amounts) xs) ≡ true → contains s set ≡ true)
      → listed (λ s. contains s set) xs ≡ listed everything xs
  listed-all set [] h = refl
  listed-all set (x ∷ xs) h =
      ground (arith, h x.1, k.beq_iff x.1 x.1, listed-all set xs (λ s m. h s (ground arith)))

  -- If the allocations cover the amount, so do those that are sealed to the chosen outputs, as long
  -- as the sum of all allocations is in the range of an amount.
  pub prev_outputs_amount-covers :
      (amount : ℕ) (allocs : List (Allocation Seal ℕ))
      → allocated everything allocs < 2 ^ 64
      → amount ≤ allocated everything allocs
      → amount ≤ allocated (λ s. contains s (prev_outputs_amount amounts amount allocs)) allocs
  unfolding prev_outputs_amount spent_entries
  prev_outputs_amount-covers amount allocs b h =
      let picks = take_enough amounts amount 0 (entries allocs) in
      let set = to_set (map (seal_of amounts) picks) in
      let q : Seal → Bool = λ s. contains s set in
      let (rest, split) = take_enough-prefix amount 0 (entries allocs) in
      let total = listed-entries everything allocs b in
      let enough =
        take_enough-covers amount 0 (entries allocs) (omega (arith, total))
          (omega (arith, total)) in
      let picked =
        listed-all set picks (λ s m. contains-to_set s (map (seal_of amounts) picks) ∙ m) in
      let whole : listed q picks + listed q rest ≡ allocated q allocs =
        sym (listed-append q picks rest) ∙ ap (listed q) split ∙ listed-entries q allocs b in
      omega (arith, enough, picked, whole)

  take_enough-lt :
      (amount acc : ℕ) (xs ys : List (ℕ × Seal × List ℕ)) (x : ℕ × Seal × List ℕ)
      → acc + listed everything xs < 2 ^ 64
      → take_enough amounts amount acc xs ≡ ys ++ x ∷ []
      → acc + listed everything ys < amount
  unfolding take_enough
  take_enough-lt amount acc [] [] x b h = absurd (ground arith)
  take_enough-lt amount acc [] (y ∷ ys) x b h = absurd (ground arith)
  take_enough-lt amount acc (z ∷ zs) [] x b h = ground arith
  take_enough-lt amount acc (z ∷ zs) (y ∷ ys) x b h =
      let e : plus acc z.0 ≡ acc + z.0 = plus_lem acc z.0 (omega arith) in
      ground (arith, take_enough-lt amount (plus acc z.0) zs ys x)

  -- No output is spent once the ones before it cover the amount: without the last of the chosen
  -- outputs, the sums of the others are less than the amount.
  pub spent_entries-lt :
      (amount : ℕ) (allocs : List (Allocation Seal ℕ)) (ys : List (ℕ × Seal × List ℕ))
      (x : ℕ × Seal × List ℕ)
      → allocated everything allocs < 2 ^ 64
      → spent_entries amounts amount allocs ≡ ys ++ x ∷ []
      → listed everything ys < amount
  unfolding spent_entries
  spent_entries-lt amount allocs ys x b h = omega (
    arith,
    take_enough-lt amount 0 (entries allocs) ys x
        (omega (arith, listed-entries everything allocs b)) h,
  )

  take_enough-all :
      (amount acc : ℕ) (xs : List (ℕ × Seal × List ℕ))
      → acc + listed everything xs < 2 ^ 64
      → acc + listed everything xs < amount
      → take_enough amounts amount acc xs ≡ xs
  unfolding take_enough
  take_enough-all amount acc [] b h = refl
  take_enough-all amount acc (x ∷ xs) b h =
      let e : plus acc x.0 ≡ acc + x.0 = plus_lem acc x.0 (omega arith) in
      ground (arith, take_enough-all amount (plus acc x.0) xs)

  -- Where the allocations do not reach the amount, all of them are sealed to the chosen outputs, as
  -- long as their sum is in the range of an amount.
  pub prev_outputs_amount-insufficient :
      (amount : ℕ) (allocs : List (Allocation Seal ℕ))
      → allocated everything allocs < 2 ^ 64
      → allocated everything allocs < amount
      → allocated (λ s. contains s (prev_outputs_amount amounts amount allocs)) allocs
        ≡ allocated everything allocs
  unfolding prev_outputs_amount spent_entries
  prev_outputs_amount-insufficient amount allocs b h =
      let picks = take_enough amounts amount 0 (entries allocs) in
      let set = to_set (map (seal_of amounts) picks) in
      let q : Seal → Bool = λ s. contains s set in
      let total = listed-entries everything allocs b in
      let same : picks ≡ entries allocs =
        take_enough-all amount 0 (entries allocs) (omega (arith, total)) (omega (arith, total)) in
      let picked =
        listed-all set picks (λ s m. contains-to_set s (map (seal_of amounts) picks) ∙ m) in
      sym (ap (listed q) same ∙ listed-entries q allocs b)
      ∙ picked
      ∙ ap (listed everything) same
      ∙ total
