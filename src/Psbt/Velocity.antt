-- ===== src/Psbt/Velocity.antt =====
-- `RgbOutExt` of psbt/src/rgb.rs: the velocity hint of an output, over the output's proprietary map.
use rgb.Base.{ℕ, Bool, true, false, ◌≡◌, Option, none, some, [], ◌∷◌, arith}
use rgb.Base.Map.{lookup}
use rgb.Psbt.Key.{Bytes, KeyMap, prop_key, rgb_out_velocity_hint_key}
use rgb.Psbt.Api.{KeyApi, KeyLaws}

-- `VelocityHint` of rgbstd with `with_value`, `as u8` and `==`.
pub record HintApi (Hint : Type 0) : Type 0 where
  pub with_value : ℕ → Hint
  pub hint_byte : Hint → ℕ
  pub hint_eq : Hint → Hint → Bool

-- A hint is read back from its byte, and equals itself.
pub record HintLaws {Hint : Type 0} (hints : HintApi Hint) : Type 0 where
  pub with_value-byte : (h : Hint) → hints.with_value (hints.hint_byte h) ≡ h
  pub eq_refl : (h : Hint) → hints.hint_eq h h ≡ true

module _ {Hint : Type 0} (api : KeyApi) (hints : HintApi Hint) where
  -- one byte is a hint, and any other length is none
  abbrev pub hint_of : Option Bytes → Option Hint
  hint_of none = none
  hint_of (some []) = none
  hint_of (some (b ∷ [])) = some (hints.with_value b)
  hint_of (some (b ∷ c ∷ rest)) = none

  unfoldable pub rgb_velocity_hint : KeyMap → Option Hint
  unfolding rgb_out_velocity_hint_key
  rgb_velocity_hint m = hint_of (lookup rgb_out_velocity_hint_key m)

  abbrev pub is_hint : Hint → Option Hint → Bool
  is_hint hint none = false
  is_hint hint (some prev) = hints.hint_eq hint prev

  unfoldable pub set_rgb_velocity_hint : KeyMap → Hint → KeyMap × Bool
  unfolding rgb_velocity_hint
  set_rgb_velocity_hint m hint = (
    (api.push_proprietary m rgb_out_velocity_hint_key (hints.hint_byte hint ∷ [])).0,
    is_hint hint (rgb_velocity_hint m),
  )

module _ {Hint : Type 0} {api : KeyApi} {hints : HintApi Hint} (laws : KeyLaws api)
    (hint_laws : HintLaws hints) where
  -- On an output with no velocity entry the hint is set and can be read back, and the result is
  -- `false`; once the same hint is present the result is `true`. This is the reverse of what the
  -- documentation of the method says of its result.
  pub set_rgb_velocity_hint_lem :
      (m : KeyMap) (hint : Hint)
      → lookup rgb_out_velocity_hint_key m ≡ none
      → let (m', r) = set_rgb_velocity_hint api hints m hint in
        (rgb_velocity_hint api hints m' ≡ some hint)
        × (r ≡ false)
        × ((set_rgb_velocity_hint api hints m' hint).1 ≡ true)
  unfolding set_rgb_velocity_hint
  set_rgb_velocity_hint_lem m hint absent =
      let facts = laws.push_absent m rgb_out_velocity_hint_key (hints.hint_byte hint ∷ []) absent in
      (
        ground (arith, facts, hint_laws.with_value-byte hint),
        ground arith,
        ground (arith, facts, hint_laws.with_value-byte hint, hint_laws.eq_refl hint),
      )
