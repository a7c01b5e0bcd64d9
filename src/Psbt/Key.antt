-- ===== src/Psbt/Key.antt =====
-- The proprietary keys of psbt/src/rgb.rs, and the maps that hold them. A `KeyMap` of the psbt crate
-- is a list of its entries, and a byte string a list of numbers.
use rgb.Base.{ℕ, String, Bool, true, false, ◌&&◌, ◌==◌, ◌||◌, ◌≡◌, ◌↔◌, List, [], ◌∷◌, arith, ltb}
use text.Mathlib.Text.{◌==◌ as str_eq}
use text.Mathlib.TextEquality.{eq_iff}
use rgb.Base.Key.{Key, nat_key, string_key, list_key}

abbrev pub Bytes : Type 0
Bytes = List ℕ

pub record PropKey : Type 0 where
  pub identifier : String
  pub subtype : ℕ
  pub payload : Bytes

abbrev pub bytes_beq : Bytes → Bytes → Bool
bytes_beq [] [] = true
bytes_beq (x ∷ xs) (y ∷ ys) = x == y && bytes_beq xs ys
bytes_beq _ _ = false

pub bytes_beq_iff : (xs ys : Bytes) → (bytes_beq xs ys ≡ true) ↔ (xs ≡ ys)
bytes_beq_iff [] [] = ground arith
bytes_beq_iff [] (y ∷ ys) = ground arith
bytes_beq_iff (x ∷ xs) [] = ground arith
bytes_beq_iff (x ∷ xs) (y ∷ ys) = ground (arith, bytes_beq_iff xs ys)

abbrev pub prop_key_beq : PropKey → PropKey → Bool
prop_key_beq k j =
    str_eq k.identifier j.identifier && k.subtype == j.subtype && bytes_beq k.payload j.payload

abbrev pub prop_key_before : PropKey → PropKey → Bool
prop_key_before k j =
    string_key.before k.identifier j.identifier
    || (str_eq k.identifier j.identifier
        && (ltb k.subtype j.subtype
            || (k.subtype == j.subtype && list_key.before k.payload j.payload)))

pub prop_key_beq_iff : (k j : PropKey) → (prop_key_beq k j ≡ true) ↔ (k ≡ j)
prop_key_beq_iff k j =
    ground (arith, eq_iff k.identifier j.identifier, bytes_beq_iff k.payload j.payload)

instance abbrev pub prop_key : Key PropKey
prop_key = record { beq = prop_key_beq; before = prop_key_before; beq_iff = prop_key_beq_iff }

abbrev pub KeyMap : Type 0
KeyMap = List (PropKey × Bytes)

abbrev pub psbt_rgb_prefix : String
psbt_rgb_prefix = "RGB"

abbrev pub psbt_global_rgb_transition : ℕ
psbt_global_rgb_transition = 0x01

abbrev pub psbt_global_rgb_close_methods : ℕ
psbt_global_rgb_close_methods = 0x02

abbrev pub psbt_in_rgb_consumed_by : ℕ
psbt_in_rgb_consumed_by = 0x01

abbrev pub psbt_out_rgb_velocity_hint : ℕ
psbt_out_rgb_velocity_hint = 0x01

-- `to_vec` gives the bytes of an id.
unfoldable pub rgb_transition_key : (ℕ → Bytes) → ℕ → PropKey
rgb_transition_key to_vec opid = record {
  identifier = psbt_rgb_prefix;
  subtype = psbt_global_rgb_transition;
  payload = to_vec opid;
}

unfoldable pub rgb_closing_methods_key : (ℕ → Bytes) → ℕ → PropKey
rgb_closing_methods_key to_vec opid = record {
  identifier = psbt_rgb_prefix;
  subtype = psbt_global_rgb_close_methods;
  payload = to_vec opid;
}

unfoldable pub rgb_in_consumed_by_key : (ℕ → Bytes) → ℕ → PropKey
rgb_in_consumed_by_key to_vec contract_id = record {
  identifier = psbt_rgb_prefix;
  subtype = psbt_in_rgb_consumed_by;
  payload = to_vec contract_id;
}

unfoldable pub rgb_out_velocity_hint_key : PropKey
rgb_out_velocity_hint_key = record {
  identifier = psbt_rgb_prefix;
  subtype = psbt_out_rgb_velocity_hint;
  payload = [];
}
