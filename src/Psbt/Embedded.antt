-- ===== src/Psbt/Embedded.antt =====
-- The batches that `rgb_embed` of psbt/src/lib.rs accepts, and the inputs of their PSBTs.
use mathlib.Core.Path.{subst}
use rgb.Base.{ℕ, ◌≡◌, refl, true, List, [], ◌∷◌, ◌++◌, Result, ok, err, panic, arith, any, All}
use rgb.Base.Key.{nat_key, pair_key}
use rgb.Base.Map.{contains}
use rgb.Chain.{XOutpoint, chain_key}
use rgb.Psbt.Api.{Input, KeyApi, KeyLaws}
use rgb.Psbt.Bundles.{Psbt}
use rgb.Psbt.Embed.{EmbedError, TransitionInfo, embed_inputs, finish, embed_one, rgb_embed}
use rgb.Psbt.Transition.{TransitionApi}
use rgb.Psbt.EmbedInputs.{IsReadable, spends, AllEmbedded, embed_inputs-AllEmbedded}

module _ {keys : KeyApi} (laws : KeyLaws keys) (api : TransitionApi) {Output : Type 0} where
  finish_ok :
      (p : Psbt Output) (info : TransitionInfo api.Transition)
      (t : List Input × List XOutpoint × Result EmbedError (Unit {0}))
      → (finish keys api p info t).1 ≡ ok tt
      → (t.2 ≡ ok tt) × (t.1 ≡ []) × ((finish keys api p info t).0.inputs ≡ t.0)
  finish_ok p info (inputs, [], ok _) h = (refl, refl, ground arith)
  finish_ok p info (inputs, o ∷ left, ok _) h = absurd (ground arith)
  finish_ok p info (inputs, left, err e) h = absurd (ground arith)
  finish_ok p info (inputs, left, panic) h = absurd (ground arith)

  -- What one transition leaves in the inputs, if it is embedded.
  embed_one_lem :
      (p : Psbt Output) (info : TransitionInfo api.Transition)
      → All (IsReadable laws) p.inputs
      → let (p', r) = embed_one keys api p info in
        r ≡ ok tt
        → AllEmbedded laws info.inputs []
            (api.contract_id info.transition)
            info.id
            p.inputs
            p'.inputs
  unfolding embed_one
  embed_one_lem p info readable h =
      let c = api.contract_id info.transition in
      let t = embed_inputs keys info.inputs c info.id p.inputs in
      let (done, empty, inputs) = finish_ok p info t h in
      let all = embed_inputs-AllEmbedded laws info.inputs c info.id p.inputs readable done in
      rw inputs (subst (λ l. AllEmbedded laws info.inputs l c info.id p.inputs t.0) empty all)

  pub rgb_embed_step :
      (p : Psbt Output) (info : TransitionInfo api.Transition)
      (batch : List (TransitionInfo api.Transition)) (r : Result EmbedError (Unit {0}))
      → (embed_one keys api p info).1 ≡ r
      → (rgb_embed keys api p (info ∷ batch)).1 ≡ ok tt
      → ((embed_one keys api p info).1 ≡ ok tt)
        × (rgb_embed keys api p (info ∷ batch)
            ≡ rgb_embed keys api (embed_one keys api p info).0 batch)
  unfolding rgb_embed
  rgb_embed_step p info batch (ok _) e h = (e, rw (e, rgb_embed))
  rgb_embed_step p info batch (err k) e h =
      let stopped : err k ≡ ok tt = rw (e, rgb_embed) at h in cc
  rgb_embed_step p info batch panic e h =
      let stopped : ◌≡◌ {A = Result EmbedError (Unit {0})} panic (ok tt) = rw (e, rgb_embed) at h in
      cc

  rgb_embed-keeps :
      (p : Psbt Output) (batch : List (TransitionInfo api.Transition)) (o : XOutpoint) (d i : ℕ)
      → All (IsReadable laws) p.inputs
      → (rgb_embed keys api p batch).1 ≡ ok tt
      → any (spends laws o d i) p.inputs ≡ true
      → any (spends laws o d i) (rgb_embed keys api p batch).0.inputs ≡ true
  unfolding rgb_embed
  rgb_embed-keeps p [] o d i readable h was = was
  rgb_embed-keeps p (info ∷ batch) o d i readable h was =
      let (done, next) = rgb_embed_step p info batch (embed_one keys api p info).1 refl h in
      let one = embed_one_lem p info readable done in
      rw next (
        rgb_embed-keeps (embed_one keys api p info).0 batch o d i one.readable (rw next at h)
          (one.keeps o d i was))

  -- Every output that a transition of an embedded batch spends is an input of the PSBT that names
  -- the transition for its contract, and goes on to name it while the rest of the batch is
  -- embedded. The consumer entries of the PSBT are readable beforehand.
  pub rgb_embed-spends :
      (p : Psbt Output) (before after : List (TransitionInfo api.Transition))
      (info : TransitionInfo api.Transition) (o : XOutpoint)
      → All (IsReadable laws) p.inputs
      → (rgb_embed keys api p (before ++ info ∷ after)).1 ≡ ok tt
      → contains o info.inputs ≡ true
      → any
          (spends laws o (api.contract_id info.transition) info.id)
          (rgb_embed keys api p (before ++ info ∷ after)).0.inputs
        ≡ true
  unfolding rgb_embed
  rgb_embed-spends p [] after info o readable h m =
      let (done, next) = rgb_embed_step p info after (embed_one keys api p info).1 refl h in
      let one = embed_one_lem p info readable done in
      rw next (
        rgb_embed-keeps (embed_one keys api p info).0 after o (api.contract_id info.transition)
          info.id one.readable (rw next at h) (one.covers o m refl))
  rgb_embed-spends p (b ∷ before) after info o readable h m =
      let batch = before ++ info ∷ after in
      let (done, next) = rgb_embed_step p b batch (embed_one keys api p b).1 refl h in
      rw next (
        rgb_embed-spends (embed_one keys api p b).0 before after info o
          (embed_one_lem p b readable done).readable (rw next at h) m)
