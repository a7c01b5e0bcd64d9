-- ===== src/Psbt/Stored.antt =====
-- The bundles that `rgb_bundles` of psbt/src/rgb.rs makes, and what the map of the PSBT holds.
use mathlib.Core.Path.{subst}
use mathlib.Core.List.{reverse_aux}
use rgb.Base.{
  ℕ, ◌≡◌, refl, ap, ◌∙◌, inl, inr, Bool, true, false, Option, none, some, List, [], ◌∷◌, ok, arith,
  Bool-cases, All, is_empty, length, ok_or, >>=-eq-ok,
}
use rgb.Base.Key.{Key, nat_key, ◌===◌}
use rgb.Base.Map.{lookup, insert}
use rgb.Descriptor.Keychain.{CloseMethod}
use rgb.Psbt.Api.{KeyApi}
use rgb.Psbt.Bundles.{
  TransitionBundle, BundleApi, Groups, or_empty, hash_order, insert_in, insert_known, group_one,
  group_all,
}
use rgb.Psbt.Key.{KeyMap}
use rgb.Psbt.Methods.{method_key}
use rgb.Psbt.Transition.{TransitionApi, rgb_transition, rgb_close_method}

module _ {K V : Type 0} ⦃k : Key K⦄ (P : K × V → Type 0) where
  pub All-insert : (j : K) (v : V) (m : List (K × V)) → P (j, v) → All P m → All P (insert j v m)
  All-insert j v [] p ps = (p, tt)
  All-insert j v ((i, w) ∷ m) p (q, ps) = elim (Bool-cases (i === j)) [
    | inl same ↦ rw same (p, ps)
    | inr apart ↦ elim (Bool-cases (k.before j i)) [
      | inl first ↦ rw (apart, first) (p, (q, ps))
      | inr later ↦ rw (apart, later) (q, All-insert j v m p ps)
    ]
  ]

  All-lookup : (j : K) (v : V) (m : List (K × V)) → All P m → lookup j m ≡ some v → P (j, v)
  All-lookup j v [] ps h = cc
  All-lookup j v ((i, w) ∷ m) (p, ps) h = elim (Bool-cases (i === j)) [
    | inl same ↦
        let at : i ≡ j = (k.beq_iff i j).0 same in
        let value : w ≡ v = ground arith in subst (λ x. P (x, v)) at (subst (λ x. P (i, x)) value p)
    | inr apart ↦ All-lookup j v m ps (ground arith)
  ]

module _ {A : Type 0} (P : A → Type 0) where
  All-reverse_aux : (xs acc : List A) → All P xs → All P acc → All P (reverse_aux xs acc)
  All-reverse_aux [] acc p q = q
  All-reverse_aux (x ∷ xs) acc (p, ps) q = All-reverse_aux xs (x ∷ acc) ps (p, q)

  pub All-hash_order : (reversed : Bool) (xs : List A) → All P xs → All P (hash_order reversed xs)
  All-hash_order true xs p = All-reverse_aux xs [] p tt
  All-hash_order false xs p = p

-- Whatever holds of both bundles holds of what a dichotomy of them is iterated over.
pub record BundleLaws {T MpcError : Type 0} (api : BundleApi T MpcError) : Type 1 where
  pub iter-with :
      (P : TransitionBundle T → Type 0) (first : TransitionBundle T)
      (second : Option (TransitionBundle T))
      → P first
      → ((b : TransitionBundle T) → second ≡ some b → P b)
      → All P (api.iter (api.with first second))

module _ (keys : KeyApi) (api : TransitionApi) (bundles : BundleApi api.Transition api.MpcError)
    (reversed : Bool) (m : KeyMap) where
  -- an entry of the input map of a bundle that is closed by the method
  abbrev pub IsClosedBy : CloseMethod → ℕ × ℕ → Type 0
  IsClosedBy method e = rgb_close_method keys api m e.1 ≡ ok (some method)

  -- an entry of the transitions of such a bundle
  abbrev pub IsStored : CloseMethod → ℕ × api.Transition → Type 0
  IsStored method e =
      (rgb_transition keys api m e.0 ≡ ok (some e.1))
      × (rgb_close_method keys api m e.0 ≡ ok (some method))

  -- The bundle has transitions, all of its entries are for operations that the map closes by the
  -- method of the bundle, and its transitions are those that the map holds.
  pub record Fits (b : TransitionBundle api.Transition) : Type 0 where
    pub inputs : All (IsClosedBy b.close_method) b.input_map
    pub transitions : All (IsStored b.close_method) b.known_transitions
    pub inhabited : is_empty b.known_transitions ≡ false

  abbrev pub InputGroups : List (CloseMethod × List (ℕ × ℕ)) → Type 0
  InputGroups l = All (λ e. All (IsClosedBy e.0) e.1) l

  abbrev pub KnownGroups : List (CloseMethod × List (ℕ × api.Transition)) → Type 0
  KnownGroups l = All (λ e. All (IsStored e.0) e.1) l

  module _ {V : Type 0} (P : CloseMethod → ℕ × V → Type 0) where
    pub All-or_empty :
        (method : CloseMethod) (l : List (CloseMethod × List (ℕ × V))) (o : Option (List (ℕ × V)))
        → All (λ e. All (P e.0) e.1) l
        → lookup method l ≡ o
        → All (P method) (or_empty o)
    All-or_empty method l none ps h = tt
    All-or_empty method l (some xs) ps h = All-lookup (λ e. All (P e.0) e.1) method xs l ps h

    insert_in-All :
        (method : CloseMethod) (key : ℕ) (v : V) (l l' : List (CloseMethod × List (ℕ × V)))
        → P method (key, v)
        → All (λ e. All (P e.0) e.1) l
        → insert_in keys api bundles reversed method key v l ≡ ok l'
        → All (λ e. All (P e.0) e.1) l'
    insert_in-All method key v l l' p ps h =
        let inner = or_empty (lookup method l) in
        elim (Bool-cases (bundles.has_room (length inner))) [
          | inl room ↦
              let at : insert method (insert key v inner) l ≡ l' = ground arith in
              subst (All (λ e. All (P e.0) e.1)) at (
                All-insert (λ e. All (P e.0) e.1) method (insert key v inner) l
                  (All-insert (P method) key v inner p
                    (All-or_empty method l (lookup method l) ps refl))
                  ps)
          | inr full ↦ absurd (ground arith)
        ]

  insert_known-All :
      (method : CloseMethod) (opid : ℕ) (o : Option api.Transition)
      (l l' : List (CloseMethod × List (ℕ × api.Transition)))
      → rgb_transition keys api m opid ≡ ok o
      → rgb_close_method keys api m opid ≡ ok (some method)
      → KnownGroups l
      → insert_known keys api bundles reversed method opid o l ≡ ok l'
      → KnownGroups l'
  insert_known-All method opid none l l' t c ps h = subst KnownGroups (ground arith) ps
  insert_known-All method opid (some t) l l' e c ps h =
      insert_in-All IsStored method opid t l l' (e, c) ps h

  ok_or-some : {E A : Type 0} (o : Option A) (e : E) (a : A) → ok_or o e ≡ ok a → o ≡ some a
  ok_or-some none e a h = absurd (ground arith)
  ok_or-some (some b) e a h = ground arith

  group_one-Groups :
      (g g' : Groups api.Transition) (opid vin : ℕ)
      → InputGroups g.input_map
      → KnownGroups g.known_transitions
      → group_one keys api bundles reversed m g opid vin ≡ ok g'
      → InputGroups g'.input_map × KnownGroups g'.known_transitions
  unfolding group_one
  group_one-Groups g g' opid vin inputs known h =
      let (t, et, h1) = >>=-eq-ok (rgb_transition keys api m opid) _ h in
      let (stored, es, h2) = >>=-eq-ok (rgb_close_method keys api m opid) _ h1 in
      let (method, em, h3) = >>=-eq-ok (ok_or stored _) _ h2 in
      let (i, ei, h4) =
        >>=-eq-ok (insert_in keys api bundles reversed method vin opid g.input_map) _ h3 in
      let (k, ek, h5) =
        >>=-eq-ok (insert_known keys api bundles reversed method opid t g.known_transitions) _ h4 in
      let closed : rgb_close_method keys api m opid ≡ ok (some method) =
        es ∙ ap ok (ok_or-some stored _ method em) in
      let ei' : i ≡ g'.input_map = ground arith in
      let ek' : k ≡ g'.known_transitions = ground arith in
      (
        subst InputGroups ei'
            (insert_in-All IsClosedBy method vin opid g.input_map i closed inputs ei),
        subst KnownGroups ek'
            (insert_known-All method opid t g.known_transitions k et closed known ek),
      )

  pub group_all-Groups :
      (g g' : Groups api.Transition) (consumers : List (ℕ × ℕ))
      → InputGroups g.input_map
      → KnownGroups g.known_transitions
      → group_all keys api bundles reversed m g consumers ≡ ok g'
      → InputGroups g'.input_map × KnownGroups g'.known_transitions
  unfolding group_all
  group_all-Groups g g' [] inputs known h =
      let e : g ≡ g' = ground arith in
      subst (λ x. InputGroups x.input_map × KnownGroups x.known_transitions) e (inputs, known)
  group_all-Groups g g' ((opid, vin) ∷ rest) inputs known h =
      let (g1, e1, h1) = >>=-eq-ok (group_one keys api bundles reversed m g opid vin) _ h in
      let (inputs1, known1) = group_one-Groups g g1 opid vin inputs known e1 in
      group_all-Groups g1 g' rest inputs1 known1 h1
