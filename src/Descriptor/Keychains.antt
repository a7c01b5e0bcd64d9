-- ===== src/Descriptor/Keychains.antt =====
-- The keychain numbers of src/descriptor.rs: the tests on them, and their text.
use rgb.Base.{ℕ, ◌==◌, inl, inr, Bool-cases, ◌≡◌, refl, ◌↔◌, true, arith}
use rgb.Descriptor.Keychain.{
  CloseMethod, opret_first, tapret_first, RgbKeychain, external, internal, rgb_chain, tapret,
  to_keychain, contains_rgb, is_seal, for_method,
}

method_of : (k : ℕ) → contains_rgb k ≡ true → (m : CloseMethod) × (to_keychain (for_method m) ≡ k)
unfolding contains_rgb for_method
method_of k h = elim (Bool-cases (k == 9)) [
  | inl e ↦ (opret_first, ground arith)
  | inr e ↦ (tapret_first, ground arith)
]

of_method : (k : ℕ) (m : CloseMethod) → to_keychain (for_method m) ≡ k → contains_rgb k ≡ true
unfolding contains_rgb for_method
of_method k opret_first h = ground arith
of_method k tapret_first h = ground arith

is_seal_lem : (r : RgbKeychain) → is_seal r ≡ contains_rgb (to_keychain r)
unfolding contains_rgb is_seal
is_seal_lem external = refl
is_seal_lem internal = refl
is_seal_lem rgb_chain = refl
is_seal_lem tapret = refl

-- A keychain byte counts as RGB exactly when a close method selects it, and a keychain is a seal
-- keychain exactly when its byte counts as RGB.
pub contains_rgb_iff :
    (k : ℕ) (r : RgbKeychain)
    → ((contains_rgb k ≡ true) ↔ ((m : CloseMethod) × (to_keychain (for_method m) ≡ k)))
      × (is_seal r ≡ contains_rgb (to_keychain r))
contains_rgb_iff k r = ((method_of k, λ p. of_method k p.0 p.1), is_seal_lem r)
