-- ===== src/Psbt/EmbedStored.antt =====
-- The transitions of the batches that `rgb_embed` of psbt/src/lib.rs accepts, in the PSBT.
use mathlib.Core.Path.{subst}
use rgb.Base.{
  ℕ, ◌+◌, ◌≡◌, ◌≢◌, refl, ap, sym, ◌∙◌, Bool, none, some, List, [], ◌∷◌, ◌++◌, Result, ok, err,
  panic, arith, All,
}
use rgb.Base.Map.{lookup}
use rgb.Chain.{XOutpoint}
use rgb.Descriptor.Keychain.{CloseMethod}
use rgb.Psbt.Api.{Input, KeyApi, KeyLaws}
use rgb.Psbt.Bundles.{Psbt}
use rgb.Psbt.Embed.{EmbedError, TransitionInfo, embed_inputs, finish, embed_one, rgb_embed}
use rgb.Psbt.Embedded.{rgb_embed_step}
use rgb.Psbt.Key.{Bytes, KeyMap, prop_key, rgb_transition_key, rgb_closing_methods_key}
use rgb.Psbt.Push.{transition_key_ne, methods_key_ne, kinds_ne, push_rgb_transition_fresh}
use rgb.Psbt.Transition.{
  TransitionApi, TransitionLaws, rgb_transition, rgb_close_method, parse_transition, parse_method,
  push_rgb_transition, prepare, push_both, Error,
}

module _ (keys : KeyApi) where
  open keys use {to_vec}

  -- the entries of an id are as they were
  record Same (a : ℕ) (m m' : KeyMap) : Type 0 where
    pub transition :
        lookup (rgb_transition_key to_vec a) m' ≡ lookup (rgb_transition_key to_vec a) m
    pub method :
        lookup (rgb_closing_methods_key to_vec a) m' ≡ lookup (rgb_closing_methods_key to_vec a) m

  -- the map has neither a transition nor a close method of the id
  pub record IsFree (m : KeyMap) (a : ℕ) : Type 0 where
    pub transition : lookup (rgb_transition_key to_vec a) m ≡ none
    pub method : lookup (rgb_closing_methods_key to_vec a) m ≡ none

module _ (api : TransitionApi) where
  open api use {Transition}

  -- the transition of an entry of a batch has another id
  abbrev pub IsOther : ℕ → TransitionInfo Transition → Type 0
  IsOther a info = a ≢ api.id info.transition

module _ {keys : KeyApi} (laws : KeyLaws keys) {api : TransitionApi}
    (tlaws : TransitionLaws api) where
  open keys use {to_vec}
  open api use {Transition}

  Same-refl : (a : ℕ) (m : KeyMap) → Same keys a m m
  Same-refl a m = record { transition = refl; method = refl }

  Same-trans : (a : ℕ) (m n o : KeyMap) → Same keys a m n → Same keys a n o → Same keys a m o
  Same-trans a m n o x y = record {
    transition = y.transition ∙ x.transition;
    method = y.method ∙ x.method;
  }

  push_both-Same :
      (a b : ℕ) (m : KeyMap) (bytes : Bytes) (method : CloseMethod)
      → a ≢ b
      → Same keys a m (push_both keys api m b bytes method)
  push_both-Same a b m bytes method ne =
      let tk = rgb_transition_key to_vec b in
      let mk = rgb_closing_methods_key to_vec b in
      let code = keys.method_byte method ∷ [] in
      let m1 = (keys.push_proprietary m tk bytes).0 in
      record {
        transition =
            laws.push_other m1 mk (rgb_transition_key to_vec a) code (kinds_ne laws tlaws a b)
            ∙ laws.push_other m tk (rgb_transition_key to_vec a) bytes
                (transition_key_ne laws tlaws a b ne);
        method =
            laws.push_other m1 mk (rgb_closing_methods_key to_vec a) code
              (methods_key_ne laws tlaws a b ne)
            ∙ laws.push_other m tk (rgb_closing_methods_key to_vec a) bytes
                (λ e. kinds_ne laws tlaws b a (sym e));
      }

  push_rgb_transition-Same :
      (a : ℕ) (m : KeyMap) (t : Transition) (method : CloseMethod)
      → a ≢ api.id t
      → Same keys a m (push_rgb_transition keys api m t method).0
  unfolding push_rgb_transition
  push_rgb_transition-Same a m t method ne = prepared (prepare keys api m t method) refl
    where
      prepared :
          (r : Result (Error keys api) (Bytes × Bool))
          → prepare keys api m t method ≡ r
          → Same keys a m (push_rgb_transition keys api m t method).0
      prepared (ok (bytes, flag)) e =
          rw (e, push_rgb_transition) (push_both-Same a (api.id t) m bytes method ne)
      prepared (err x) e = rw (e, push_rgb_transition) (Same-refl a m)
      prepared panic e = rw (e, push_rgb_transition) (Same-refl a m)

module _ {keys : KeyApi} (laws : KeyLaws keys) {api : TransitionApi} (tlaws : TransitionLaws api)
    {Output : Type 0} where
  open api use {Transition}

  finish-proprietary :
      (p : Psbt Output) (info : TransitionInfo Transition)
      (t : List Input × List XOutpoint × Result EmbedError (Unit {0}))
      → (finish keys api p info t).1 ≡ ok tt
      → (finish keys api p info t).0.proprietary
        ≡ (push_rgb_transition keys api p.proprietary info.transition info.method).0
  finish-proprietary p info (inputs, [], ok _) h = ground arith
  finish-proprietary p info (inputs, o ∷ left, ok _) h = absurd (ground arith)
  finish-proprietary p info (inputs, left, err e) h = absurd (ground arith)
  finish-proprietary p info (inputs, left, panic) h = absurd (ground arith)

  embed_one-proprietary :
      (p : Psbt Output) (info : TransitionInfo Transition)
      → (embed_one keys api p info).1 ≡ ok tt
      → (embed_one keys api p info).0.proprietary
        ≡ (push_rgb_transition keys api p.proprietary info.transition info.method).0
  unfolding embed_one
  embed_one-proprietary p info =
      finish-proprietary p info
        (embed_inputs keys info.inputs (api.contract_id info.transition) info.id p.inputs)

  embed_one-Same :
      (a : ℕ) (p : Psbt Output) (info : TransitionInfo Transition)
      → IsOther api a info
      → (embed_one keys api p info).1 ≡ ok tt
      → Same keys a p.proprietary (embed_one keys api p info).0.proprietary
  embed_one-Same a p info ne done =
      subst (Same keys a p.proprietary) (sym (embed_one-proprietary p info done))
        (push_rgb_transition-Same laws tlaws a p.proprietary info.transition info.method ne)

  rgb_embed-Same :
      (a : ℕ) (p : Psbt Output) (batch : List (TransitionInfo Transition))
      → All (IsOther api a) batch
      → (rgb_embed keys api p batch).1 ≡ ok tt
      → Same keys a p.proprietary (rgb_embed keys api p batch).0.proprietary
  unfolding rgb_embed
  rgb_embed-Same a p [] others h = Same-refl laws tlaws a p.proprietary
  rgb_embed-Same a p (b ∷ batch) (ne, others) h =
      let (done, next) = rgb_embed_step laws api p b batch (embed_one keys api p b).1 refl h in
      let p1 = (embed_one keys api p b).0 in
      rw next (
        Same-trans laws tlaws a p.proprietary p1.proprietary
          (rgb_embed keys api p1 batch).0.proprietary (embed_one-Same a p b ne done)
          (rgb_embed-Same a p1 batch others (rw next at h)))

  -- A transition of a batch that is embedded is read back from the PSBT as it was, with its close
  -- method, if the PSBT had no entries of its id before, no other of the batch has its id, and it
  -- serialises.
  pub rgb_embed-stores :
      (p : Psbt Output) (before after : List (TransitionInfo Transition))
      (info : TransitionInfo Transition) (bytes : Bytes)
      → (rgb_embed keys api p (before ++ info ∷ after)).1 ≡ ok tt
      → All (IsOther api (api.id info.transition)) before
      → All (IsOther api (api.id info.transition)) after
      → IsFree keys p.proprietary (api.id info.transition)
      → api.to_strict_serialized info.transition ≡ some bytes
      → let m' = (rgb_embed keys api p (before ++ info ∷ after)).0.proprietary in
        (rgb_transition keys api m' (api.id info.transition) ≡ ok (some info.transition))
        × (rgb_close_method keys api m' (api.id info.transition) ≡ ok (some info.method))
  unfolding rgb_transition rgb_close_method rgb_embed
  rgb_embed-stores p [] after info bytes h ob oa free ser =
      let a = api.id info.transition in
      let (done, next) =
        rgb_embed_step laws api p info after (embed_one keys api p info).1 refl h in
      let p1 = (embed_one keys api p info).0 in
      let same = rgb_embed-Same a p1 after oa (rw next at h) in
      let pushed = embed_one-proprietary p info done in
      let (fine, t_read, m_read, t_kept, m_kept) =
        push_rgb_transition_fresh laws tlaws p.proprietary info.transition info.method bytes (a + 1)
          free.transition free.method ser (λ e. omega (arith, e)) in
      rw next (
        ap (parse_transition keys api) same.transition
            ∙ ap (λ m. rgb_transition keys api m a) pushed
            ∙ t_read,
        ap (parse_method keys api a) same.method
            ∙ ap (λ m. rgb_close_method keys api m a) pushed
            ∙ m_read,
      )
  rgb_embed-stores p (b ∷ before) after info bytes h (ne, ob) oa free ser =
      let a = api.id info.transition in
      let batch = before ++ info ∷ after in
      let (done, next) = rgb_embed_step laws api p b batch (embed_one keys api p b).1 refl h in
      let same = embed_one-Same a p b ne done in
      rw next (
        rgb_embed-stores (embed_one keys api p b).0 before after info bytes (rw next at h) ob oa
          (record {
            transition = same.transition ∙ free.transition;
            method = same.method ∙ free.method;
          })
          ser)
