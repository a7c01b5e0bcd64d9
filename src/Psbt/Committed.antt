-- ===== src/Psbt/Committed.antt =====
-- The bundles of the fascia that `rgb_commit` of psbt/src/lib.rs returns.
use rgb.Base.{
  ℕ, ◌≡◌, sym, ap, Bool, Option, none, some, List, Result, ok, err, panic, arith, All, ◌>>◌,
}
use rgb.Psbt.Anchors.{commit_methods_lem}
use rgb.Psbt.Api.{KeyApi}
use rgb.Psbt.Bundled.{rgb_bundles-Fits}
use rgb.Psbt.Bundles.{
  Psbt, BundleApi, Error, pairs, confined, to_mpc, commit_all, rgb_bundles, rgb_bundles_to_mpc,
}
use rgb.Psbt.Commit.{
  AnchorSet, Fascia, CommitApi, CommitLaws, methods_of, commit_some, after_mpc, rgb_commit,
}
use rgb.Psbt.Stored.{BundleLaws, Fits}
use rgb.Psbt.Transition.{TransitionApi}

module _ (keys : KeyApi) (api : TransitionApi) (bundles : BundleApi api.Transition api.MpcError)
    (reversed : Bool) (commits : CommitApi bundles.Output) (laws : BundleLaws bundles)
    (commit_laws : CommitLaws commits) where
  abbrev FasciaOf : Type 0
  FasciaOf =
      Fascia commits.Witness (AnchorSet commits.Tapret commits.Opret) (List (ℕ × bundles.Dichotomy))

  confined_ok :
      (m bs : List (ℕ × bundles.Dichotomy))
      (r : Result (Error keys api bundles reversed) (Unit {0}))
      → (r >> confined keys api bundles reversed m) ≡ ok bs
      → m ≡ bs
  confined_ok m bs (ok _) h = ground arith
  confined_ok m bs (err e) h = absurd (ground arith)
  confined_ok m bs panic h = absurd (ground arith)

  to_mpc_ok :
      (p : Psbt bundles.Output)
      (r : Result (Error keys api bundles reversed) (List (ℕ × bundles.Dichotomy)))
      (bs : List (ℕ × bundles.Dichotomy))
      → (to_mpc keys api bundles reversed p r).1 ≡ ok bs
      → r ≡ ok bs
  to_mpc_ok p (ok m) bs h = ap ok (
      confined_ok m bs
        (commit_all keys api bundles reversed p.outputs (pairs keys api bundles reversed m)).1 h)
  to_mpc_ok p (err e) bs h = absurd (ground arith)
  to_mpc_ok p panic bs h = absurd (ground arith)

  commit_some_ok :
      (p : Psbt bundles.Output) (methods : Option commits.CloseMethodSet)
      (bs : List (ℕ × bundles.Dichotomy)) (f : FasciaOf)
      → (commit_some keys api bundles reversed commits p methods bs).1 ≡ ok f
      → f.bundles ≡ bs
  commit_some_ok p none bs f h = absurd (ground arith)
  commit_some_ok p (some methods) bs f h =
      (commit_methods_lem keys api bundles reversed commits commit_laws p methods bs f h).2

  after_mpc_ok :
      (p : Psbt bundles.Output)
      (r : Result (Error keys api bundles reversed) (List (ℕ × bundles.Dichotomy))) (f : FasciaOf)
      → (after_mpc keys api bundles reversed commits p r).1 ≡ ok f
      → r ≡ ok f.bundles
  after_mpc_ok p (ok bs) f h = ap ok (
      sym (
        commit_some_ok p
          (methods_of keys api bundles reversed commits (pairs keys api bundles reversed bs)) bs f
          h))
  after_mpc_ok p (err e) f h = absurd (ground arith)
  after_mpc_ok p panic f h = absurd (ground arith)

  -- The bundles of a fascia that `rgb_commit` returns have transitions, which are those that the PSBT
  -- stores under their ids, and the PSBT closes the operations of all entries of a bundle by the
  -- method of that bundle.
  pub rgb_commit-Fits :
      (p : Psbt bundles.Output) (f : FasciaOf)
      → (rgb_commit keys api bundles reversed commits p).1 ≡ ok f
      → All (λ e. All (Fits keys api bundles reversed p.proprietary) (bundles.iter e.1)) f.bundles
  unfolding rgb_commit rgb_bundles_to_mpc
  rgb_commit-Fits p f h =
      let (p', r) = rgb_bundles_to_mpc keys api bundles reversed p in
      rgb_bundles-Fits keys api bundles reversed laws p f.bundles
        (to_mpc_ok p (rgb_bundles keys api bundles reversed p) f.bundles (after_mpc_ok p' r f h))
