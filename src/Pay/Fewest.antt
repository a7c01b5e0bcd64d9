-- ===== src/Pay/Fewest.antt =====
-- The number of the outputs that `construct_psbt_rgb` of src/pay.rs chooses for an amount.
use rgb.Base.{ℕ, zero, suc, ◌+◌, ◌≤◌, Bool, List, [], ◌∷◌, if◌then◌else◌}
use rgb.Base.Key.{Key}

abbrev Entry : Type 0 → Type 0
Entry Seal = ℕ × Seal × List ℕ

module _ {Seal : Type 0} where
  -- how many entries have a seal that passes
  abbrev pub counted : (Seal → Bool) → List (Entry Seal) → ℕ
  counted q [] = 0
  counted q (x ∷ xs) = let rest = counted q xs in if q x.1 then suc rest else rest

  abbrev AllBelow : ℕ → List (Entry Seal) → Type 0
  AllBelow n [] = Unit {0}
  AllBelow n (x ∷ xs) = (x.0 ≤ n) × AllBelow n xs

  abbrev AllAbove : ℕ → List (Entry Seal) → Type 0
  AllAbove n [] = Unit {0}
  AllAbove n (x ∷ xs) = (n ≤ x.0) × AllAbove n xs

  abbrev IsDescending : List (Entry Seal) → Type 0
  IsDescending [] = Unit {0}
  IsDescending (x ∷ xs) = AllBelow x.0 xs × IsDescending xs

  abbrev IsAscending : List (Entry Seal) → Type 0
  IsAscending [] = Unit {0}
  IsAscending (x ∷ xs) = AllAbove x.0 xs × IsAscending xs

  -- the sum of the first so many entries
  abbrev top : ℕ → List (Entry Seal) → ℕ
  top zero xs = 0
  top (suc n) [] = 0
  top (suc n) (x ∷ xs) = x.0 + top n xs
