-- ===== src/Tests/Psbt.antt =====
-- PSBTs with small instances of the interfaces: an id is one byte, a transition its id and contract.
use rgb.Base.{
  ℕ, ◌≡◌, ◌≢◌, ◌↔◌, refl, if◌then◌else◌, true, false, ◌==◌, Option, none, some, [], ◌∷◌, Result, ok,
  err, arith, leb, length,
}
use rgb.Base.Key.{nat_key, pair_key}
use rgb.Base.Map.{lookup, contains_key, insert, lookup-insert, contains}
use rgb.Chain.{chain_key}
use rgb.Descriptor.Keychain.{CloseMethod, opret_first, tapret_first}
use rgb.Psbt.Api.{Input, KeyApi, KeyLaws, KeyAlreadyPresent, key_already_present}
use rgb.Psbt.Consumer.{rgb_consumer, read_opid, set_rgb_consumer, set_rgb_consumer_fresh}
use rgb.Psbt.Inputs.{rgb_contract_consumers, consumers_from}
use rgb.Psbt.Key.{Bytes, PropKey, KeyMap, prop_key, rgb_in_consumed_by_key}
use rgb.Psbt.Methods.{method_key}
use rgb.Psbt.Push.{push_rgb_transition_fresh, push_rgb_transition_conflict}
use rgb.Psbt.Sets.{rgb_contract_consumers_lem}
use rgb.Psbt.Transition.{
  TransitionApi, TransitionLaws, invalid_close_method, rgb_transition, rgb_close_method,
  push_rgb_transition,
}
use rgb.Psbt.Velocity.{
  HintApi, HintLaws, rgb_velocity_hint, set_rgb_velocity_hint, set_rgb_velocity_hint_lem,
}

abbrev read_byte : Bytes → Option ℕ
read_byte (x ∷ []) = some x
read_byte _ = none

abbrev push : KeyMap → PropKey → Bytes → KeyMap × Result KeyAlreadyPresent (Unit {0})
push m k v = if contains_key k m then (m, err (key_already_present k)) else (insert k v m, ok tt)

abbrev code : CloseMethod → ℕ
code opret_first = 0
code tapret_first = 1

abbrev method_of : ℕ → Option CloseMethod
method_of n = if n == 0 then some opret_first else if n == 1 then some tapret_first else none

abbrev pub keys : KeyApi
keys = record {
  to_vec = λ id. id ∷ [];
  copy_from_slice = read_byte;
  push_proprietary = push;
  method_byte = code;
  method_try_from = method_of;
}

pub pushed_absent :
    (m : KeyMap) (k : PropKey) (v : Bytes) → lookup k m ≡ none → lookup k (push m k v).0 ≡ some v
pushed_absent m k v e = ground (arith, lookup-insert k k v m, prop_key.beq_iff k k)

pub pushed_other :
    (m : KeyMap) (k j : PropKey) (v : Bytes) → j ≢ k → lookup j (push m k v).0 ≡ lookup j m
pushed_other m k j v ne = ground (arith, lookup-insert k j v m, prop_key.beq_iff k j)

pub method_of-code : (m : CloseMethod) → method_of (code m) ≡ some m
method_of-code opret_first = refl
method_of-code tapret_first = refl

abbrev pub key_laws : KeyLaws keys
key_laws = record {
  copy-to_vec = λ id. refl;
  push_absent = pushed_absent;
  push_other = pushed_other;
  try_from-byte = method_of-code;
}

abbrev hints : HintApi ℕ
hints = record { with_value = λ n. n; hint_byte = λ n. n; hint_eq = ◌==◌ }

abbrev hint_laws : HintLaws hints
hint_laws = record { with_value-byte = λ h. refl; eq_refl = (λ h. (nat_key.beq_iff h h).1 refl) }

set_rgb_velocity_hint_lem_example :
    let (m', r) = set_rgb_velocity_hint keys hints [] 15 in
    (rgb_velocity_hint keys hints m' ≡ some 15)
    × (r ≡ false)
    × ((set_rgb_velocity_hint keys hints m' 15).1 ≡ true)
set_rgb_velocity_hint_lem_example = set_rgb_velocity_hint_lem key_laws hint_laws [] 15 refl

abbrev pub bare_input : Input
bare_input = record { outpoint = (5, 1); proprietary = [] }

abbrev spent_input : Input
spent_input = record {
  outpoint = (5, 1);
  proprietary = (rgb_in_consumed_by_key (λ id. id ∷ []) 8, 3 ∷ []) ∷ [];
}

pub bare_consumer : (c : ℕ) → rgb_consumer keys bare_input c ≡ ok none
unfolding rgb_consumer read_opid
bare_consumer c = refl

set_rgb_consumer_fresh_example :
    let (input', r) = set_rgb_consumer keys bare_input 8 3 in
    (r ≡ ok true)
    × (rgb_consumer keys input' 8 ≡ ok (some 3))
    × (set_rgb_consumer keys input' 8 3 ≡ (input', ok false))
    × (rgb_consumer keys input' 9 ≡ rgb_consumer keys bare_input 9)
    × (input'.outpoint ≡ (5, 1))
set_rgb_consumer_fresh_example =
    set_rgb_consumer_fresh key_laws bare_input 8 3 9 (bare_consumer 8) (λ e. omega (arith, e))

rgb_contract_consumers_lem_example :
    (contains {A = ℕ × ℕ} (3, 0) ((3, 0) ∷ []) ≡ true)
    ↔ (rgb_consumer keys spent_input 8 ≡ ok (some 3))
unfolding rgb_contract_consumers consumers_from rgb_consumer read_opid rgb_in_consumed_by_key
rgb_contract_consumers_lem_example =
    rgb_contract_consumers_lem keys 8 (spent_input ∷ []) ((3, 0) ∷ []) 3 0 spent_input (omega arith)
      refl refl

-- A transition is its id and its contract, as two bytes.
abbrev deserialize : Bytes → Result (Unit {0}) (ℕ × ℕ)
deserialize (a ∷ b ∷ []) = ok (a, b)
deserialize _ = err tt

abbrev pub transitions : TransitionApi
transitions = record {
  Transition = ℕ × ℕ;
  MergeRevealError = Unit {0};
  DeserializeError = Unit {0};
  MpcError = Unit {0};
  id = λ t. t.0;
  contract_id = λ t. t.1;
  merge_reveal = λ t prev. ok t;
  to_strict_serialized = λ t. some (t.0 ∷ t.1 ∷ []);
  from_strict_serialized = deserialize;
  max_u24 = 16777215;
  max_u16 = 65535;
}

fits :
    (t : ℕ × ℕ) (bytes : Bytes)
    → ◌≡◌ {A = Option Bytes} (some (t.0 ∷ t.1 ∷ [])) (some bytes)
    → (leb (length bytes) 16777215 ≡ true) × (deserialize bytes ≡ ok t)
fits (a, b) bytes e = (ground arith, ground arith)

pub transition_laws : TransitionLaws transitions
transition_laws = record { deserialize-serialize = fits }

push_rgb_transition_fresh_example :
    let (m', r) = push_rgb_transition keys transitions [] (3, 8) tapret_first in
    (r ≡ ok true)
    × (rgb_transition keys transitions m' 3 ≡ ok (some (3, 8)))
    × (rgb_close_method keys transitions m' 3 ≡ ok (some tapret_first))
    × (rgb_transition keys transitions m' 4 ≡ rgb_transition keys transitions [] 4)
    × (rgb_close_method keys transitions m' 4 ≡ rgb_close_method keys transitions [] 4)
push_rgb_transition_fresh_example =
    push_rgb_transition_fresh key_laws transition_laws [] (3, 8) tapret_first (3 ∷ 8 ∷ []) 4 refl
      refl refl (λ e. omega (arith, e))

push_rgb_transition_conflict_example :
    let m' = (push_rgb_transition keys transitions [] (3, 8) tapret_first).0 in
    let (m'', r) = push_rgb_transition keys transitions m' (3, 9) opret_first in
    (r ≡ err (invalid_close_method 3))
    × (rgb_transition keys transitions m'' 3 ≡ ok (some (3, 8)))
    × (rgb_close_method keys transitions m'' 3 ≡ ok (some tapret_first))
push_rgb_transition_conflict_example =
    push_rgb_transition_conflict key_laws transition_laws [] (3, 8) (3, 9) tapret_first opret_first
      (3 ∷ 8 ∷ []) refl refl refl refl (λ e. absurd (ground arith))
