-- ===== src/Base/Key.antt =====
-- Keys of maps and members of sets: Rust's `Eq` and `Ord` for the types that the program uses so.
use Prim.Native.Nat.{ℕ, Ordering}
use Prim.Native.String.{String, compare as string_compare}
use text.Mathlib.Text.{◌==◌ as str_eq}
use text.Mathlib.TextEquality.{eq_iff}
use mathlib.Core.Path.{◌≡◌, refl}
use mathlib.Core.Logic.{◌↔◌}
use mathlib.Core.Bool.{Bool, true, false, ◌&&◌, ◌||◌}
use mathlib.Core.List.{List, [], ◌∷◌}
use native.Mathlib.Omega.{arith}
use rgb.Base.Tests.{ltb, ◌==◌ as nat_beq, ==_iff}

pub record Key {ℓ} (A : Type ℓ) : Type ℓ where
  pub beq : A → A → Bool
  pub before : A → A → Bool
  pub beq_iff : (a b : A) → (beq a b ≡ true) ↔ (a ≡ b)

infix 50 ◌===◌
abbrev pub ◌===◌ {ℓ} : {A : Type ℓ} ⦃e : Key A⦄ → A → A → Bool
◌===◌ ⦃e⦄ = e.beq

pub ===_refl {ℓ} : {A : Type ℓ} ⦃e : Key A⦄ (a : A) → (a === a) ≡ true
===_refl ⦃e⦄ a = (e.beq_iff a a).1 refl

instance abbrev pub nat_key : Key ℕ
nat_key = record { beq = nat_beq; before = ltb; beq_iff = ==_iff }

abbrev pub string_before : String → String → Bool
string_before s t = elim (string_compare s t) [ Ordering.lt ↦ true | _ ↦ false ]

instance abbrev pub string_key : Key String
string_key = record { beq = str_eq; before = string_before; beq_iff = eq_iff }

module _ {ℓ κ} {A : Type ℓ} {B : Type κ} ⦃a : Key A⦄ ⦃b : Key B⦄ where
  abbrev pub pair_beq : A × B → A × B → Bool
  pair_beq (x, y) (u, v) = (x === u) && (y === v)

  abbrev pub pair_before : A × B → A × B → Bool
  pair_before (x, y) (u, v) = a.before x u || ((x === u) && b.before y v)

  pub pair_beq_iff : (p q : A × B) → (pair_beq p q ≡ true) ↔ (p ≡ q)
  pair_beq_iff (x, y) (u, v) = ground (arith, a.beq_iff x u, b.beq_iff y v)

  -- Tuples are compared field by field.
  instance abbrev pub pair_key : Key (A × B)
  pair_key = record { beq = pair_beq; before = pair_before; beq_iff = pair_beq_iff }

module _ {ℓ} {A : Type ℓ} ⦃a : Key A⦄ where
  abbrev pub list_beq : List A → List A → Bool
  list_beq [] [] = true
  list_beq (x ∷ xs) (y ∷ ys) = (x === y) && list_beq xs ys
  list_beq _ _ = false

  abbrev pub list_before : List A → List A → Bool
  list_before [] [] = false
  list_before [] (y ∷ ys) = true
  list_before (x ∷ xs) [] = false
  list_before (x ∷ xs) (y ∷ ys) = a.before x y || ((x === y) && list_before xs ys)

  pub list_beq_iff : (xs ys : List A) → (list_beq xs ys ≡ true) ↔ (xs ≡ ys)
  list_beq_iff [] [] = ground arith
  list_beq_iff [] (y ∷ ys) = ground arith
  list_beq_iff (x ∷ xs) [] = ground arith
  list_beq_iff (x ∷ xs) (y ∷ ys) = ground (arith, a.beq_iff x y, list_beq_iff xs ys)

  -- Byte strings and vectors are compared in lexicographic order.
  instance abbrev pub list_key : Key (List A)
  list_key = record { beq = list_beq; before = list_before; beq_iff = list_beq_iff }
