-- ===== src/Psbt/Anchors.antt =====
-- The close methods of the bundles and the anchor in `rgb_commit` of psbt/src/lib.rs.
use rgb.Base.{
  ℕ, ◌≡◌, refl, ◌∙◌, ◌||◌, Bool, true, false, Option, none, some, List, [], ◌∷◌, Result, ok, err,
  panic, arith, any,
}
use rgb.Descriptor.Keychain.{CloseMethod, opret_first, tapret_first}
use rgb.Psbt.Api.{KeyApi}
use rgb.Psbt.Bundles.{Error, Psbt, TransitionBundle, BundleApi, pairs, rgb_bundles_to_mpc}
use rgb.Psbt.Commit.{
  AnchorSet, tapret, opret, double, Fascia, CommitApi, CommitLaws, union_all, methods_of,
  commit_methods, commit_some, after_mpc, rgb_commit,
}
use rgb.Psbt.Transition.{TransitionApi, method_eq}

abbrev pub has_tapret : {T O : Type 0} → AnchorSet T O → Bool
has_tapret (tapret t) = true
has_tapret (opret o) = false
has_tapret (double t o) = true

abbrev pub has_opret : {T O : Type 0} → AnchorSet T O → Bool
has_opret (tapret t) = false
has_opret (opret o) = true
has_opret (double t o) = true

abbrev pub uses : {T : Type 0} → CloseMethod → List (ℕ × TransitionBundle T) → Bool
uses method bundles = any (λ b. method_eq method b.1.close_method) bundles

module _ (keys : KeyApi) (api : TransitionApi) (bundles : BundleApi api.Transition api.MpcError)
    (reversed : Bool) (commits : CommitApi bundles.Output) (laws : CommitLaws commits) where
  open commits use {CloseMethodSet, has_tapret_first, has_opret_first}

  union_all_lem :
      (methods : CloseMethodSet) (l : List (ℕ × TransitionBundle api.Transition))
      → let all = union_all keys api bundles reversed commits methods l in
        (has_tapret_first all ≡ (has_tapret_first methods || uses tapret_first l))
        × (has_opret_first all ≡ (has_opret_first methods || uses opret_first l))
  unfolding union_all
  union_all_lem methods [] = ground arith
  union_all_lem methods ((id, b) ∷ l) = ground (
    arith,
    union_all_lem (commits.union methods (commits.from_method b.close_method)) l,
    laws.tapret-union methods (commits.from_method b.close_method),
    laws.opret-union methods (commits.from_method b.close_method),
    laws.tapret-from b.close_method,
    laws.opret-from b.close_method,
  )

  methods_of_lem :
      (l : List (ℕ × TransitionBundle api.Transition)) (methods : CloseMethodSet)
      → methods_of keys api bundles reversed commits l ≡ some methods
      → (has_tapret_first methods ≡ uses tapret_first l)
        × (has_opret_first methods ≡ uses opret_first l)
  unfolding methods_of
  methods_of_lem [] methods h = cc
  methods_of_lem ((id, b) ∷ l) methods h = ground (
    arith,
    union_all_lem (commits.from_method b.close_method) l,
    laws.tapret-from b.close_method,
    laws.opret-from b.close_method,
  )

  pub commit_methods_lem :
      (p : Psbt bundles.Output) (methods : CloseMethodSet) (bs : List (ℕ × bundles.Dichotomy))
      (f : Fascia commits.Witness
        (AnchorSet commits.Tapret commits.Opret)
        (List (ℕ × bundles.Dichotomy)))
      → (commit_methods keys api bundles reversed commits p methods bs).1 ≡ ok f
      → (has_tapret f.anchor ≡ has_tapret_first methods)
        × (has_opret f.anchor ≡ has_opret_first methods)
        × (f.bundles ≡ bs)
  unfolding commit_methods
  commit_methods_lem p methods bs f h = ground arith

  committed_some :
      (p : Psbt bundles.Output) (methods : Option CloseMethodSet)
      (bs : List (ℕ × bundles.Dichotomy))
      (f : Fascia commits.Witness
        (AnchorSet commits.Tapret commits.Opret)
        (List (ℕ × bundles.Dichotomy)))
      → methods_of keys api bundles reversed commits (pairs keys api bundles reversed bs) ≡ methods
      → (commit_some keys api bundles reversed commits p methods bs).1 ≡ ok f
      → (has_tapret f.anchor ≡ uses tapret_first (pairs keys api bundles reversed f.bundles))
        × (has_opret f.anchor ≡ uses opret_first (pairs keys api bundles reversed f.bundles))
  committed_some p none bs f e h = absurd (ground arith)
  committed_some p (some methods) bs f e h =
      let (t, o, same) = commit_methods_lem p methods bs f h in
      let (t', o') = methods_of_lem (pairs keys api bundles reversed bs) methods e in
      rw same (t ∙ t', o ∙ o')

  committed :
      (p : Psbt bundles.Output)
      (r : Result (Error keys api bundles reversed) (List (ℕ × bundles.Dichotomy)))
      (f : Fascia commits.Witness
        (AnchorSet commits.Tapret commits.Opret)
        (List (ℕ × bundles.Dichotomy)))
      → (after_mpc keys api bundles reversed commits p r).1 ≡ ok f
      → (has_tapret f.anchor ≡ uses tapret_first (pairs keys api bundles reversed f.bundles))
        × (has_opret f.anchor ≡ uses opret_first (pairs keys api bundles reversed f.bundles))
  committed p (ok bs) f h =
      committed_some p
        (methods_of keys api bundles reversed commits (pairs keys api bundles reversed bs)) bs f
        refl h
  committed p (err e) f h = absurd (ground arith)
  committed p panic f h = absurd (ground arith)

  -- The anchor of a fascia that `rgb_commit` returns has a tapret part exactly if a bundle of the
  -- fascia is closed by tapret, and an opret part exactly if one is closed by opret.
  pub rgb_commit-anchor :
      (p : Psbt bundles.Output)
      (f : Fascia commits.Witness
        (AnchorSet commits.Tapret commits.Opret)
        (List (ℕ × bundles.Dichotomy)))
      → (rgb_commit keys api bundles reversed commits p).1 ≡ ok f
      → (has_tapret f.anchor ≡ uses tapret_first (pairs keys api bundles reversed f.bundles))
        × (has_opret f.anchor ≡ uses opret_first (pairs keys api bundles reversed f.bundles))
  unfolding rgb_commit
  rgb_commit-anchor p f h =
      let (p', r) = rgb_bundles_to_mpc keys api bundles reversed p in committed p' r f h
