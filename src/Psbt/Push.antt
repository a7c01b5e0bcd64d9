-- ===== src/Psbt/Push.antt =====
-- `push_rgb_transition` of psbt/src/rgb.rs against the reads of transitions and close methods.
use rgb.Base.{
  ℕ, ◌+◌, true, false, refl, ◌≡◌, ◌≢◌, ap, sym, ◌∙◌, none, some, [], ◌∷◌, ok, err, arith,
}
use rgb.Base.Map.{lookup}
use rgb.Descriptor.Keychain.{CloseMethod, opret_first, tapret_first}
use rgb.Psbt.Key.{Bytes, KeyMap, prop_key, rgb_transition_key, rgb_closing_methods_key}
use rgb.Psbt.Api.{KeyApi, KeyLaws}
use rgb.Psbt.Consumer.{to_vec_inj}
use rgb.Psbt.Transition.{
  TransitionApi, TransitionLaws, rgb_transition, rgb_close_method, parse_transition, parse_method,
  push_rgb_transition, prepare, push_both, method_eq, invalid_close_method,
}

module _ {keys : KeyApi} {api : TransitionApi} (laws : KeyLaws keys)
    (tlaws : TransitionLaws api) where
  open keys use {to_vec}

  pub transition_key_ne :
      (a b : ℕ) → a ≢ b → rgb_transition_key to_vec a ≢ rgb_transition_key to_vec b
  unfolding rgb_transition_key
  transition_key_ne a b ne e = ne (to_vec_inj laws a b (ap (λ k. k.payload) e))

  pub methods_key_ne :
      (a b : ℕ) → a ≢ b → rgb_closing_methods_key to_vec a ≢ rgb_closing_methods_key to_vec b
  unfolding rgb_closing_methods_key
  methods_key_ne a b ne e = ne (to_vec_inj laws a b (ap (λ k. k.payload) e))

  pub kinds_ne : (a b : ℕ) → rgb_transition_key to_vec a ≢ rgb_closing_methods_key to_vec b
  unfolding rgb_transition_key rgb_closing_methods_key
  kinds_ne a b e = omega (arith, ap (λ k. k.subtype) e)

  push_fresh :
      (m : KeyMap) (t : api.Transition) (method : CloseMethod) (bytes : Bytes)
      → lookup (rgb_transition_key to_vec (api.id t)) m ≡ none
      → lookup (rgb_closing_methods_key to_vec (api.id t)) m ≡ none
      → api.to_strict_serialized t ≡ some bytes
      → ((push_rgb_transition keys api m t method).1 ≡ ok true)
        × ((push_rgb_transition keys api m t method).0
            ≡ push_both keys api m (api.id t) bytes method)
  unfolding push_rgb_transition parse_transition parse_method
  push_fresh m t method bytes nt nm ser = ground arith

  method_eq-ne : (a b : CloseMethod) → b ≢ a → method_eq a b ≡ false
  method_eq-ne opret_first opret_first ne = absurd (ne refl)
  method_eq-ne opret_first tapret_first ne = refl
  method_eq-ne tapret_first opret_first ne = refl
  method_eq-ne tapret_first tapret_first ne = absurd (ne refl)

  push_conflict :
      (m : KeyMap) (t : api.Transition) (prev method : CloseMethod)
      → rgb_close_method keys api m (api.id t) ≡ ok (some prev)
      → method ≢ prev
      → push_rgb_transition keys api m t method ≡ (m, err (invalid_close_method (api.id t)))
  unfolding push_rgb_transition prepare
  push_conflict m t prev method h ne = ground (arith, h, method_eq-ne prev method ne)

  -- A transition that is pushed to a PSBT with no entry for its id, and that can be serialised, is
  -- read back as it was, with its close method; the call returns `true`. The transitions and
  -- the methods of all other ids are as before.
  pub push_rgb_transition_fresh :
      (m : KeyMap) (t : api.Transition) (method : CloseMethod) (bytes : Bytes) (other : ℕ)
      → lookup (rgb_transition_key to_vec (api.id t)) m ≡ none
      → lookup (rgb_closing_methods_key to_vec (api.id t)) m ≡ none
      → api.to_strict_serialized t ≡ some bytes
      → other ≢ api.id t
      → let (m', r) = push_rgb_transition keys api m t method in
        (r ≡ ok true)
        × (rgb_transition keys api m' (api.id t) ≡ ok (some t))
        × (rgb_close_method keys api m' (api.id t) ≡ ok (some method))
        × (rgb_transition keys api m' other ≡ rgb_transition keys api m other)
        × (rgb_close_method keys api m' other ≡ rgb_close_method keys api m other)
  unfolding push_rgb_transition rgb_transition rgb_close_method
  push_rgb_transition_fresh m t method bytes other nt nm ser ne =
      let (r, stored) = push_fresh m t method bytes nt nm ser in
      let tk = rgb_transition_key to_vec (api.id t) in
      let mk = rgb_closing_methods_key to_vec (api.id t) in
      let code = keys.method_byte method ∷ [] in
      let m1 = (keys.push_proprietary m tk bytes).0 in
      let otk = rgb_transition_key to_vec other in
      let omk = rgb_closing_methods_key to_vec other in
      let t_stored : lookup tk (push_both keys api m (api.id t) bytes method) ≡ some bytes =
        laws.push_other m1 mk tk code (kinds_ne (api.id t) (api.id t))
        ∙ laws.push_absent m tk bytes nt in
      let m_absent : lookup mk m1 ≡ none =
        laws.push_other m tk mk bytes (λ e. kinds_ne (api.id t) (api.id t) (sym e)) ∙ nm in
      let m_stored : lookup mk (push_both keys api m (api.id t) bytes method) ≡ some code =
        laws.push_absent m1 mk code m_absent in
      let t_other : lookup otk (push_both keys api m (api.id t) bytes method) ≡ lookup otk m =
        laws.push_other m1 mk otk code (kinds_ne other (api.id t))
        ∙ laws.push_other m tk otk bytes (transition_key_ne other (api.id t) ne) in
      let m_other : lookup omk (push_both keys api m (api.id t) bytes method) ≡ lookup omk m =
        laws.push_other m1 mk omk code (methods_key_ne other (api.id t) ne)
        ∙ laws.push_other m tk omk bytes (λ e. kinds_ne (api.id t) other (sym e)) in
      let fits = tlaws.deserialize-serialize t bytes ser in
      (
        r,
        rw (stored, t_stored, parse_transition, fits.0, fits.1),
        rw (stored, m_stored, parse_method, laws.try_from-byte),
        rw (stored, t_other),
        rw (stored, m_other),
      )

  -- Once a transition is pushed to a PSBT with no entry for its id, a push of a transition with that
  -- id by another close method ends with `InvalidCloseMethod`, and the first transition and its
  -- method are read back as they were pushed.
  pub push_rgb_transition_conflict :
      (m : KeyMap) (t later : api.Transition) (method other : CloseMethod) (bytes : Bytes)
      → lookup (rgb_transition_key to_vec (api.id t)) m ≡ none
      → lookup (rgb_closing_methods_key to_vec (api.id t)) m ≡ none
      → api.to_strict_serialized t ≡ some bytes
      → api.id later ≡ api.id t
      → other ≢ method
      → let m' = (push_rgb_transition keys api m t method).0 in
        let (m'', r) = push_rgb_transition keys api m' later other in
        (r ≡ err (invalid_close_method (api.id t)))
        × (rgb_transition keys api m'' (api.id t) ≡ ok (some t))
        × (rgb_close_method keys api m'' (api.id t) ≡ ok (some method))
  push_rgb_transition_conflict m t later method other bytes nt nm ser same ne =
      let m' = (push_rgb_transition keys api m t method).0 in
      let (r, stored, closed, t_other, m_other) =
        push_rgb_transition_fresh m t method bytes (api.id t + 1) nt nm ser
          (λ e. omega (arith, e)) in
      let refused =
        push_conflict m' later method other (ap (rgb_close_method keys api m') same ∙ closed) ne in
      (
        rw (refused) (ap (λ id. err (invalid_close_method id)) same),
        rw (refused) stored,
        rw (refused) closed,
      )
