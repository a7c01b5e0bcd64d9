-- ===== src/Psbt/Bundled.antt =====
-- The bundles of `rgb_bundles` of psbt/src/rgb.rs, from the groups of a contract to the whole PSBT.
use mathlib.Core.Path.{subst}
use rgb.Base.{
  ℕ, ◌≡◌, refl, inl, inr, Bool, none, some, List, [], ◌∷◌, ok, err, arith, Bool-cases, All,
  is_empty, map_err, >>=-eq-ok, if◌then◌else◌,
}
use rgb.Base.Key.{nat_key}
use rgb.Base.Map.{lookup, insert}
use rgb.Descriptor.Keychain.{CloseMethod}
use rgb.Psbt.Api.{Input, KeyApi}
use rgb.Psbt.Bundles.{
  Psbt, TransitionBundle, BundleApi, or_empty, hash_order, group_all, make_bundles, dichotomy_of,
  contract_bundle, bundles_of, rgb_bundles,
}
use rgb.Psbt.Inputs.{rgb_contract_ids, rgb_contract_consumers}
use rgb.Psbt.Key.{KeyMap}
use rgb.Psbt.Methods.{method_key}
use rgb.Psbt.Stored.{
  All-insert, All-hash_order, All-or_empty, BundleLaws, IsStored, Fits, InputGroups, KnownGroups,
  group_all-Groups,
}
use rgb.Psbt.Transition.{TransitionApi}

module _ (keys : KeyApi) (api : TransitionApi) (bundles : BundleApi api.Transition api.MpcError)
    (reversed : Bool) (laws : BundleLaws bundles) where
  make_bundles-Fits :
      (m : KeyMap) (contract_id : ℕ) (known : List (CloseMethod × List (ℕ × api.Transition)))
      (groups : List (CloseMethod × List (ℕ × ℕ))) (bs : List (TransitionBundle api.Transition))
      → KnownGroups keys api bundles reversed m known
      → InputGroups keys api bundles reversed m groups
      → make_bundles keys api bundles reversed contract_id known groups ≡ ok bs
      → All (Fits keys api bundles reversed m) bs
  unfolding make_bundles
  make_bundles-Fits m contract_id known [] bs ks is h =
      let e : [] ≡ bs = ground arith in subst (All (Fits keys api bundles reversed m)) e tt
  make_bundles-Fits m contract_id known ((method, input_map) ∷ rest) bs ks (i, is) h =
      let transitions = or_empty (lookup method known) in
      elim (Bool-cases (is_empty transitions)) [
        | inl none_left ↦ absurd (ground arith)
        | inr some_left ↦
            let bundle : TransitionBundle api.Transition = record {
              close_method = method;
              input_map = input_map;
              known_transitions = transitions;
            } in
            let (b, eb, h1) =
              >>=-eq-ok
                (if is_empty transitions
                  then err (rgb.Psbt.Transition.no_transitions contract_id)
                  else ok bundle)
                _ h in
            let (others, eo, h2) =
              >>=-eq-ok (make_bundles keys api bundles reversed contract_id known rest) _ h1 in
            let same : bundle ≡ b = ground arith in
            let whole : b ∷ others ≡ bs = ground arith in
            let fits : Fits keys api bundles reversed m bundle = record {
              inputs = i;
              transitions =
                  All-or_empty keys api bundles reversed m (IsStored keys api bundles reversed m)
                    method known (lookup method known) ks refl;
              inhabited = some_left;
            } in
            subst (All (Fits keys api bundles reversed m)) whole (
              subst (Fits keys api bundles reversed m) same fits,
              make_bundles-Fits m contract_id known rest others ks is eo,
            )
      ]

  dichotomy_of-Fits :
      (m : KeyMap) (contract_id : ℕ) (bs : List (TransitionBundle api.Transition))
      (d : bundles.Dichotomy)
      → All (Fits keys api bundles reversed m) bs
      → dichotomy_of keys api bundles reversed contract_id bs ≡ ok d
      → All (Fits keys api bundles reversed m) (bundles.iter d)
  dichotomy_of-Fits m contract_id [] d fits h = absurd (ground arith)
  dichotomy_of-Fits m contract_id (a ∷ []) d (fa, fits) h =
      let e : bundles.with a none ≡ d = ground arith in
      subst (λ x. All (Fits keys api bundles reversed m) (bundles.iter x)) e
        (laws.iter-with (Fits keys api bundles reversed m) a none fa (λ b q. absurd (ground arith)))
  dichotomy_of-Fits m contract_id (a ∷ c ∷ rest) d (fa, (fc, fits)) h =
      let e : bundles.with a (some c) ≡ d = ground arith in
      subst (λ x. All (Fits keys api bundles reversed m) (bundles.iter x)) e
        (laws.iter-with (Fits keys api bundles reversed m) a (some c) fa
          (λ b q. let p : c ≡ b = ground arith in subst (Fits keys api bundles reversed m) p fc))

  contract_bundle-Fits :
      (m : KeyMap) (inputs : List Input) (contract_id : ℕ) (d : bundles.Dichotomy)
      → contract_bundle keys api bundles reversed m inputs contract_id ≡ ok d
      → All (Fits keys api bundles reversed m) (bundles.iter d)
  unfolding contract_bundle
  contract_bundle-Fits m inputs contract_id d h =
      let (consumers, ec, h1) =
        >>=-eq-ok (map_err (rgb_contract_consumers keys inputs contract_id) _) _ h in
      let (g, eg, h2) = >>=-eq-ok (group_all keys api bundles reversed m _ consumers) _ h1 in
      let (bs, eb, h3) =
        >>=-eq-ok
          (make_bundles keys api bundles reversed contract_id g.known_transitions
            (hash_order reversed g.input_map))
          _ h2 in
      let (is, ks) = group_all-Groups keys api bundles reversed m _ g consumers tt tt eg in
      let ordered = All-hash_order _ reversed g.input_map is in
      dichotomy_of-Fits m contract_id bs d
        (make_bundles-Fits m contract_id g.known_transitions (hash_order reversed g.input_map) bs ks
          ordered eb)
        h3

  abbrev AllFit : KeyMap → List (ℕ × bundles.Dichotomy) → Type 0
  AllFit m l = All (λ e. All (Fits keys api bundles reversed m) (bundles.iter e.1)) l

  bundles_of-Fits :
      (m : KeyMap) (inputs : List Input) (ids : List ℕ) (acc l : List (ℕ × bundles.Dichotomy))
      → AllFit m acc
      → bundles_of keys api bundles reversed m inputs ids acc ≡ ok l
      → AllFit m l
  unfolding bundles_of
  bundles_of-Fits m inputs [] acc l fits h =
      let e : acc ≡ l = ground arith in subst (AllFit m) e fits
  bundles_of-Fits m inputs (id ∷ ids) acc l fits h =
      let (d, ed, h1) = >>=-eq-ok (contract_bundle keys api bundles reversed m inputs id) _ h in
      bundles_of-Fits m inputs ids (insert id d acc) l
        (All-insert (λ e. All (Fits keys api bundles reversed m) (bundles.iter e.1)) id d acc
          (contract_bundle-Fits m inputs id d ed) fits)
        h1

  -- Every bundle that `rgb_bundles` returns has a transition; its transitions are stored in the PSBT
  -- under their ids, and the operations of all its entries have the close method of the bundle there.
  pub rgb_bundles-Fits :
      (p : Psbt bundles.Output) (l : List (ℕ × bundles.Dichotomy))
      → rgb_bundles keys api bundles reversed p ≡ ok l
      → All (λ e. All (Fits keys api bundles reversed p.proprietary) (bundles.iter e.1)) l
  unfolding rgb_bundles
  rgb_bundles-Fits p l h =
      let (ids, ei, h1) = >>=-eq-ok (map_err (rgb_contract_ids keys p.inputs) _) _ h in
      bundles_of-Fits p.proprietary p.inputs ids [] l tt h1
