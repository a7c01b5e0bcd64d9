-- ===== src/Psbt/Transition.antt =====
-- The state transitions in the global map of a PSBT: `rgb_transition`, `rgb_close_method` and
-- `push_rgb_transition` of psbt/src/rgb.rs, over that map.
use rgb.Base.{
  ℕ, Bool, true, false, ◌≡◌, Option, none, some, [], ◌∷◌, Result, ok, err, panic, map_err, ok_or,
  ◌>>=◌, if◌then◌else◌, leb, length, not,
}
use rgb.Base.Map.{lookup}
use rgb.Descriptor.Keychain.{CloseMethod, opret_first, tapret_first}
use rgb.Psbt.Key.{Bytes, KeyMap, prop_key, rgb_transition_key, rgb_closing_methods_key}
use rgb.Psbt.Api.{KeyApi}

-- `RgbPsbtError`; the errors of other crates inside are type parameters.
pub data RgbPsbtError (MergeRevealError DeserializeError MpcError : Type 0) : Type 0 where
  already_set no_contracts invalid_contract_id :
      RgbPsbtError MergeRevealError DeserializeError MpcError
  unrelated_transitions :
      ℕ → ℕ → MergeRevealError → RgbPsbtError MergeRevealError DeserializeError MpcError
  no_transitions no_close_method invalid_close_method transition_too_big :
      ℕ → RgbPsbtError MergeRevealError DeserializeError MpcError
  no_host_output : CloseMethod → RgbPsbtError MergeRevealError DeserializeError MpcError
  too_many_contracts too_many_transitions_in_bundle :
      RgbPsbtError MergeRevealError DeserializeError MpcError
  invalid_transition : DeserializeError → RgbPsbtError MergeRevealError DeserializeError MpcError
  mpc : MpcError → RgbPsbtError MergeRevealError DeserializeError MpcError

-- `Transition` of rgbstd. The bounds are the constants `U24` and `U16` of its confined collections.
pub record TransitionApi : Type 1 where
  pub Transition : Type 0
  pub MergeRevealError : Type 0
  pub DeserializeError : Type 0
  pub MpcError : Type 0
  pub id : Transition → ℕ
  pub contract_id : Transition → ℕ
  pub merge_reveal : Transition → Transition → Result MergeRevealError Transition
  -- `None` where the bytes are more than the confinement allows
  pub to_strict_serialized : Transition → Option Bytes
  pub from_strict_serialized : Bytes → Result DeserializeError Transition
  pub max_u24 : ℕ
  pub max_u16 : ℕ

-- What is serialised fits the bound and is read back as it was.
pub record TransitionLaws (api : TransitionApi) : Type 1 where
  pub deserialize-serialize :
      (t : api.Transition) (bytes : Bytes)
      → api.to_strict_serialized t ≡ some bytes
      → (leb (length bytes) api.max_u24 ≡ true) × (api.from_strict_serialized bytes ≡ ok t)

abbrev pub method_eq : CloseMethod → CloseMethod → Bool
method_eq opret_first opret_first = true
method_eq tapret_first tapret_first = true
method_eq _ _ = false

module _ (keys : KeyApi) (api : TransitionApi) where
  open keys use {to_vec, push_proprietary, method_byte, method_try_from}
  open api use {
    Transition, MergeRevealError, DeserializeError, MpcError, merge_reveal, to_strict_serialized,
    from_strict_serialized, max_u24,
  }

  abbrev pub Error : Type 0
  Error = RgbPsbtError MergeRevealError DeserializeError MpcError

  unfoldable pub parse_transition : Option Bytes → Result Error (Option Transition)
  parse_transition none = ok none
  parse_transition (some bytes) =
      if leb (length bytes) max_u24
      then (do t ← map_err (from_strict_serialized bytes) invalid_transition; ok (some t))
      else err too_many_transitions_in_bundle

  unfoldable pub rgb_transition : KeyMap → ℕ → Result Error (Option Transition)
  unfolding parse_transition
  rgb_transition m opid = parse_transition (lookup (rgb_transition_key to_vec opid) m)

  abbrev pub method_or_error : ℕ → Option CloseMethod → Result Error (Option CloseMethod)
  method_or_error opid none = err (invalid_close_method opid)
  method_or_error opid (some method) = ok (some method)

  unfoldable pub parse_method : ℕ → Option Bytes → Result Error (Option CloseMethod)
  parse_method opid none = ok none
  parse_method opid (some []) = err (invalid_close_method opid)
  parse_method opid (some (b ∷ [])) = method_or_error opid (method_try_from b)
  parse_method opid (some (b ∷ c ∷ rest)) = err (invalid_close_method opid)

  unfoldable pub rgb_close_method : KeyMap → ℕ → Result Error (Option CloseMethod)
  unfolding parse_method
  rgb_close_method m opid = parse_method opid (lookup (rgb_closing_methods_key to_vec opid) m)

  -- `matches!(prev_method, Some(prev_method) if prev_method != method)`
  abbrev pub conflicts : CloseMethod → Option CloseMethod → Bool
  conflicts method none = false
  conflicts method (some prev) = not (method_eq prev method)

  unfoldable pub merge_with : Transition → Option Transition → Result Error Transition
  merge_with transition none = ok transition
  merge_with transition (some prev) =
      map_err (merge_reveal transition prev)
        (unrelated_transitions (api.id prev) (api.id transition))

  -- the two insertions at the end, whose results are ignored
  abbrev pub push_both : KeyMap → ℕ → Bytes → CloseMethod → KeyMap
  push_both m opid bytes method =
      (push_proprietary (push_proprietary m (rgb_transition_key to_vec opid) bytes).0
        (rgb_closing_methods_key to_vec opid) (method_byte method ∷ [])).0

  abbrev pub is_none : Option Transition → Bool
  is_none none = true
  is_none (some t) = false

  -- what is to be stored, with the flag that is returned; the map is read only
  unfoldable pub prepare : KeyMap → Transition → CloseMethod → Result Error (Bytes × Bool)
  unfolding rgb_transition rgb_close_method merge_with
  prepare m transition method = do
    prev_method ← rgb_close_method m (api.id transition)
    fresh ←
        if conflicts method prev_method
        then err (invalid_close_method (api.id transition))
        else rgb_transition m (api.id transition)
    merged ← merge_with transition fresh
    bytes ← ok_or (to_strict_serialized merged) (transition_too_big (api.id transition))
    ok (bytes, is_none fresh)

  unfoldable pub push_rgb_transition :
      KeyMap → Transition → CloseMethod → KeyMap × Result Error Bool
  unfolding prepare
  push_rgb_transition m transition method = elim (prepare m transition method) [
    | ok (bytes, flag) ↦ (push_both m (api.id transition) bytes method, ok flag)
    | err e ↦ (m, err e)
    | panic ↦ (m, panic)
  ]
