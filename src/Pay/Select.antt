-- ===== src/Pay/Select.antt =====
-- The choice of the outputs to spend in `construct_psbt_rgb` of src/pay.rs. Amounts are numbers;
-- `plus` is the addition of `Amount`, of which the model knows only what holds below 2 ^ 64.
use mathlib.Core.List.{reverse}
use rgb.Base.{ℕ, ◌+◌, ◌^◌, ◌<◌, ◌≡◌, Bool, List, [], ◌∷◌, ◌++◌, map, keep, if◌then◌else◌, leb}
use rgb.Base.Key.{Key, ◌===◌}
use rgb.Base.Map.{to_set}

-- an owned state and the output that it is sealed to
pub record Allocation (Seal State : Type 0) : Type 0 where
  pub seal : Seal
  pub state : State

-- `Amount + Amount`
pub record AmountApi : Type 0 where
  pub plus : ℕ → ℕ → ℕ
  pub plus_lem : (a b : ℕ) → a + b < 2 ^ 64 → plus a b ≡ a + b

module _ {Seal : Type 0} ⦃k : Key Seal⦄ where
  -- `set.entry(seal).or_default().push(amount)`
  unfoldable pub push_amount : Seal → ℕ → List (Seal × List ℕ) → List (Seal × List ℕ)
  push_amount seal a [] = (seal, a ∷ []) ∷ []
  push_amount seal a ((s, vals) ∷ m) =
      if s === seal
      then (s, vals ++ a ∷ []) ∷ m
      else if k.before seal s
      then (seal, a ∷ []) ∷ (s, vals) ∷ m
      else (s, vals) ∷ push_amount seal a m

  -- the fold over the allocations of the contract
  unfoldable pub group : List (Seal × List ℕ) → List (Allocation Seal ℕ) → List (Seal × List ℕ)
  unfolding push_amount
  group m [] = m
  group m (a ∷ rest) = group (push_amount a.seal a.state m) rest

-- `sum::<Amount>()`
unfoldable pub sum_from : AmountApi → ℕ → List ℕ → ℕ
sum_from amounts acc [] = acc
sum_from amounts acc (v ∷ vals) = sum_from amounts (amounts.plus acc v) vals

module _ {Seal : Type 0} ⦃k : Key Seal⦄ (amounts : AmountApi) where
  open amounts use {plus}

  -- the sum, the seal and the values of each output
  unfoldable pub with_sums : List (Seal × List ℕ) → List (ℕ × Seal × List ℕ)
  unfolding sum_from
  with_sums [] = []
  with_sums ((seal, vals) ∷ m) = (sum_from amounts 0 vals, seal, vals) ∷ with_sums m

  -- `sort_by_key(|(sum, _, _)| *sum)`, which is stable
  unfoldable pub insert_sorted :
      ℕ × Seal × List ℕ → List (ℕ × Seal × List ℕ) → List (ℕ × Seal × List ℕ)
  insert_sorted x [] = x ∷ []
  insert_sorted x (y ∷ ys) = if leb x.0 y.0 then x ∷ y ∷ ys else y ∷ insert_sorted x ys

  unfoldable pub sort_by_sum : List (ℕ × Seal × List ℕ) → List (ℕ × Seal × List ℕ)
  unfolding insert_sorted
  sort_by_sum [] = []
  sort_by_sum (x ∷ xs) = insert_sorted x (sort_by_sum xs)

  -- the `take_while`, with the sum so far
  unfoldable pub take_enough : ℕ → ℕ → List (ℕ × Seal × List ℕ) → List (ℕ × Seal × List ℕ)
  take_enough amount sum [] = []
  take_enough amount sum (x ∷ xs) =
      if leb amount sum then [] else x ∷ take_enough amount (plus sum x.0) xs

  abbrev pub seal_of : ℕ × Seal × List ℕ → Seal
  seal_of x = x.1

  -- the entries that are spent, the largest first
  unfoldable pub spent_entries : ℕ → List (Allocation Seal ℕ) → List (ℕ × Seal × List ℕ)
  unfolding group with_sums sort_by_sum take_enough
  spent_entries amount allocations =
      take_enough amount 0 (reverse (sort_by_sum (with_sums (group [] allocations))))

  unfoldable pub prev_outputs_amount : ℕ → List (Allocation Seal ℕ) → List Seal
  unfolding spent_entries
  prev_outputs_amount amount allocations = to_set (map seal_of (spent_entries amount allocations))

-- the outputs with the requested data; `same` is `==` of `DataState`
unfoldable pub prev_outputs_data :
    {Seal State : Type 0} ⦃k : Key Seal⦄
    → (State → State → Bool)
    → State
    → List (Allocation Seal State)
    → List Seal
prev_outputs_data same data_state allocations =
    to_set (map (λ x. x.seal) (keep (λ x. same x.state data_state) allocations))
