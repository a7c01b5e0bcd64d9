-- ===== src/Tests/Pay.antt =====
-- Two outputs, one of them with two allocations; an output is its number.
use rgb.Base.{ℕ, ◌≡◌, ◌≤◌, ◌<◌, ◌+◌, refl, List, [], ◌∷◌, arith}
use rgb.Base.Key.{nat_key}
use rgb.Base.Map.{contains}
use rgb.Pay.Covered.{allocated, listed, everything, prev_outputs_amount-covers, spent_entries-lt}
use rgb.Pay.Select.{
  Allocation, AmountApi, group, push_amount, sum_from, with_sums, insert_sorted, sort_by_sum,
  take_enough, spent_entries, prev_outputs_amount,
}

abbrev pub amounts : AmountApi
amounts = record { plus = λ a b. a + b; plus_lem = λ a b h. refl }

abbrev allocations : List (Allocation ℕ ℕ)
allocations =
    record { seal = 1; state = 20 }
    ∷ record { seal = 2; state = 15 }
    ∷ record { seal = 1; state = 30 }
    ∷ record { seal = 3; state = 70 }
    ∷ []

prev_outputs_amount-covers_example :
    100 ≤ allocated (λ s. contains s (prev_outputs_amount amounts 100 allocations)) allocations
prev_outputs_amount-covers_example =
    prev_outputs_amount-covers amounts 100 allocations (omega arith) (omega arith)

spent : spent_entries amounts 100 allocations ≡ (70, 3, 70 ∷ []) ∷ (50, 1, 20 ∷ 30 ∷ []) ∷ []
unfolding spent_entries group push_amount with_sums sum_from sort_by_sum insert_sorted take_enough
spent = refl

spent_entries-lt_example : listed {Seal = ℕ} everything ((70, 3, 70 ∷ []) ∷ []) < 100
spent_entries-lt_example =
    spent_entries-lt amounts 100 allocations ((70, 3, 70 ∷ []) ∷ []) (50, 1, 20 ∷ 30 ∷ [])
      (omega arith) spent
