-- ===== src/Base/Map.antt =====
-- `BTreeMap` and `BTreeSet`: lists in the order of the keys. A `HashMap` whose order is never read
-- is modelled by the same functions.
use mathlib.Core.Path.{◌≡◌, refl}
use mathlib.Core.Bool.{Bool, false, ◌||◌}
use mathlib.Core.List.{List, [], ◌∷◌}
use mathlib.Core.Option.{Option, none, some}
use native.Mathlib.Omega.{arith}
use rgb.Base.Tests.{if◌then◌else◌, is_some}
use rgb.Base.Key.{Key, ◌===◌}

module _ {ℓ κ} {K : Type ℓ} {V : Type κ} ⦃e : Key K⦄ where
  abbrev pub lookup : K → List (K × V) → Option V
  lookup k [] = none
  lookup k ((j, v) ∷ m) = if j === k then some v else lookup k m

  -- `contains_key`
  abbrev pub contains_key : K → List (K × V) → Bool
  contains_key k m = is_some (lookup k m)

  abbrev pub insert : K → V → List (K × V) → List (K × V)
  insert k v [] = (k, v) ∷ []
  insert k v ((j, w) ∷ m) =
      if j === k
      then (k, v) ∷ m
      else if e.before k j
      then (k, v) ∷ (j, w) ∷ m
      else (j, w) ∷ insert k v m

  pub lookup-insert :
      (k j : K) (v : V) (m : List (K × V))
      → lookup j (insert k v m) ≡ (if k === j then some v else lookup j m)
  lookup-insert k j v [] = refl
  lookup-insert k j v ((i, w) ∷ m) =
      ground (arith, e.beq_iff k j, e.beq_iff i k, e.beq_iff i j, lookup-insert k j v m)

module _ {ℓ} {A : Type ℓ} ⦃e : Key A⦄ where
  -- `BTreeSet::contains`
  abbrev pub contains : A → List A → Bool
  contains a [] = false
  contains a (x ∷ xs) = (x === a) || contains a xs

  -- `BTreeSet::insert`, without the flag
  abbrev pub add : A → List A → List A
  add a [] = a ∷ []
  add a (x ∷ xs) = if x === a then x ∷ xs else if e.before a x then a ∷ x ∷ xs else x ∷ add a xs

  -- `collect::<BTreeSet<_>>()`
  abbrev pub to_set : List A → List A
  to_set [] = []
  to_set (x ∷ xs) = add x (to_set xs)

  -- `BTreeSet::remove`, without the flag
  abbrev pub erase : A → List A → List A
  erase a [] = []
  erase a (x ∷ xs) = if x === a then erase a xs else x ∷ erase a xs

  pub contains-add : (a b : A) (s : List A) → contains b (add a s) ≡ ((a === b) || contains b s)
  contains-add a b [] = refl
  contains-add a b (x ∷ s) =
      ground (arith, e.beq_iff a b, e.beq_iff x a, e.beq_iff x b, contains-add a b s)

  pub contains-to_set : (a : A) (xs : List A) → contains a (to_set xs) ≡ contains a xs
  contains-to_set a [] = refl
  contains-to_set a (x ∷ xs) = ground (arith, contains-add x a (to_set xs), contains-to_set a xs)

  pub contains-erase :
      (a b : A) (s : List A) → contains b (erase a s) ≡ (if a === b then false else contains b s)
  contains-erase a b [] = ground arith
  contains-erase a b (x ∷ s) =
      ground (arith, e.beq_iff a b, e.beq_iff x a, e.beq_iff x b, contains-erase a b s)
