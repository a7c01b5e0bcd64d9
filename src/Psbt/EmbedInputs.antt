-- ===== src/Psbt/EmbedInputs.antt =====
-- The loop of `rgb_embed` of psbt/src/lib.rs over the inputs of a PSBT, for one transition.
use mathlib.Core.Path.{subst}
use rgb.Base.{
  ℕ, ◌≡◌, refl, ◌∙◌, inl, inr, ◌&&◌, Bool, true, false, Option, none, some, List, [], ◌∷◌, Result,
  ok, err, panic, arith, any, ◌==◌, Bool-cases, All,
}
use rgb.Base.Key.{nat_key, pair_key, ◌===◌}
use rgb.Base.Map.{contains, erase, contains-erase}
use rgb.Chain.{bitcoin, XOutpoint, chain_key, chain_beq_iff}
use rgb.Psbt.Api.{Input, KeyApi, KeyLaws, KeyAlreadyPresent}
use rgb.Psbt.Consumer.{rgb_consumer, set_rgb_consumer, set_rgb_consumer_lem}
use rgb.Psbt.Embed.{EmbedError, embed_input, embed_inputs}
use rgb.Psbt.Sets.{is_value, is_value_iff}

module _ {keys : KeyApi} (laws : KeyLaws keys) where
  -- every consumer entry of the input is an operation id
  abbrev pub IsReadable : Input → Type 0
  IsReadable x = (c : ℕ) → (o : Option ℕ) × (rgb_consumer keys x c ≡ ok o)

  -- the input is at the output, and names the operation for the contract
  abbrev pub spends : XOutpoint → ℕ → ℕ → Input → Bool
  spends o d i y = (bitcoin y.outpoint === o) && is_value i (rgb_consumer keys y d)

  consumed_by_cases :
      (x : Input) (c id : ℕ) (flag : Bool) (o : Option ℕ)
      → rgb_consumer keys x c ≡ ok o
      → (set_rgb_consumer keys x c id).1 ≡ ok flag
      → rgb_consumer keys (set_rgb_consumer keys x c id).0 c ≡ ok (some id)
  consumed_by_cases x c id flag none e h = ((set_rgb_consumer_lem laws x c id).0 e).1
  consumed_by_cases x c id flag (some i) e h = elim (Bool-cases (i == id)) [
    | inl q ↦
        let at : rgb_consumer keys x c ≡ ok (some id) = ground arith in
        rw ((set_rgb_consumer_lem laws x c id).1 at).1 at
    | inr q ↦
        let refused = ((set_rgb_consumer_lem laws x c id).2 i (ground arith) e).0 in
        absurd (ground arith)
  ]

  -- What an accepted `set_rgb_consumer` leaves behind.
  set_consumed :
      (x : Input) (c id : ℕ) (flag : Bool)
      → IsReadable x
      → (set_rgb_consumer keys x c id).1 ≡ ok flag
      → rgb_consumer keys (set_rgb_consumer keys x c id).0 c ≡ ok (some id)
  set_consumed x c id flag readable h =
      let (o, e) = readable c in consumed_by_cases x c id flag o e h

  set_keeps :
      (x : Input) (c id : ℕ) (flag : Bool) (d i : ℕ)
      → (set_rgb_consumer keys x c id).1 ≡ ok flag
      → rgb_consumer keys x d ≡ ok (some i)
      → rgb_consumer keys (set_rgb_consumer keys x c id).0 d ≡ ok (some i)
  set_keeps x c id flag d i h was = elim (Bool-cases (d == c)) [
    | inr ne ↦ (set_rgb_consumer_lem laws x c id).3 d (ground arith) ∙ was
    | inl eq ↦ elim (Bool-cases (i == id)) [
      | inl q ↦
          let at : rgb_consumer keys x c ≡ ok (some id) = ground arith in
          rw ((set_rgb_consumer_lem laws x c id).1 at).1 was
      | inr q ↦
          let at : rgb_consumer keys x c ≡ ok (some i) = ground arith in
          let refused = ((set_rgb_consumer_lem laws x c id).2 i (ground arith) at).0 in
          absurd (ground arith)
    ]
  ]

  set-IsReadable :
      (x : Input) (c id : ℕ) (flag : Bool)
      → IsReadable x
      → (set_rgb_consumer keys x c id).1 ≡ ok flag
      → IsReadable (set_rgb_consumer keys x c id).0
  set-IsReadable x c id flag readable h d = elim (Bool-cases (d == c)) [
    | inl eq ↦ let q : d ≡ c = ground arith in (some id, rw q (set_consumed x c id flag readable h))
    | inr ne ↦
        let (o, e) = readable d in (o, (set_rgb_consumer_lem laws x c id).3 d (ground arith) ∙ e)
  ]

  -- What the loop body leaves of one input.
  record Embedded (set : List XOutpoint) (c id : ℕ) (x x' : Input) : Type 0 where
    same : x'.outpoint ≡ x.outpoint
    keeps : (d i : ℕ) → rgb_consumer keys x d ≡ ok (some i) → rgb_consumer keys x' d ≡ ok (some i)
    readable : IsReadable x'
    sets : contains (bitcoin x.outpoint) set ≡ true → rgb_consumer keys x' c ≡ ok (some id)

  embed_input_in :
      (set : List XOutpoint) (c id : ℕ) (x : Input) (r : Result KeyAlreadyPresent Bool)
      → (set_rgb_consumer keys x c id).1 ≡ r
      → contains (bitcoin x.outpoint) set ≡ true
      → IsReadable x
      → (embed_input keys set c id x).1 ≡ ok tt
      → Embedded set c id x (embed_input keys set c id x).0
  embed_input_in set c id x (ok flag) e member readable h =
      rw (member, e)
        (record {
          same = (set_rgb_consumer_lem laws x c id).4;
          keeps = λ d i was. set_keeps x c id flag d i e was;
          readable = set-IsReadable x c id flag readable e;
          sets = λ _. set_consumed x c id flag readable e;
        })
  embed_input_in set c id x (err k) e member readable h = absurd (ground arith)
  embed_input_in set c id x panic e member readable h = absurd (ground arith)

  embed_input-Embedded :
      (set : List XOutpoint) (c id : ℕ) (x : Input)
      → IsReadable x
      → (embed_input keys set c id x).1 ≡ ok tt
      → Embedded set c id x (embed_input keys set c id x).0
  embed_input-Embedded set c id x readable h =
      elim (Bool-cases (contains (bitcoin x.outpoint) set)) [
        | inl member ↦
            embed_input_in set c id x (set_rgb_consumer keys x c id).1 refl member readable h
        | inr apart ↦ rw apart (record {
          same = refl;
          keeps = λ d i was. was;
          readable = readable;
          sets = λ m. absurd (ground arith);
        })
      ]

  -- What the loop over the inputs leaves, if it comes to its end.
  pub record AllEmbedded (set left : List XOutpoint) (c id : ℕ) (xs ys : List Input) : Type 0 where
    pub keeps :
        (o : XOutpoint) (d i : ℕ) → any (spends o d i) xs ≡ true → any (spends o d i) ys ≡ true
    pub readable : All IsReadable ys
    pub covers :
        (o : XOutpoint)
        → contains o set ≡ true
        → contains o left ≡ false
        → any (spends o c id) ys ≡ true

  spends-keeps :
      (set : List XOutpoint) (c id : ℕ) (x x' : Input) (o : XOutpoint) (d i : ℕ)
      → Embedded set c id x x'
      → spends o d i x ≡ true
      → spends o d i x' ≡ true
  spends-keeps set c id x x' o d i e h = ground (
    arith,
    e.same,
    e.keeps d i,
    is_value_iff i (rgb_consumer keys x d),
    is_value_iff i (rgb_consumer keys x' d),
  )

  spends-sets :
      (set : List XOutpoint) (c id : ℕ) (x x' : Input)
      → Embedded set c id x x'
      → contains (bitcoin x.outpoint) set ≡ true
      → spends (bitcoin x.outpoint) c id x' ≡ true
  spends-sets set c id x x' e h = ground (
    arith,
    e.same,
    e.sets h,
    is_value_iff id (rgb_consumer keys x' c),
    chain_beq_iff (bitcoin x.outpoint) (bitcoin x.outpoint),
    chain_beq_iff (bitcoin x'.outpoint) (bitcoin x.outpoint),
  )

  AllEmbedded-cons :
      (set left : List XOutpoint) (c id : ℕ) (x x' : Input) (xs ys : List Input)
      → Embedded set c id x x'
      → AllEmbedded (erase (bitcoin x.outpoint) set) left c id xs ys
      → AllEmbedded set left c id (x ∷ xs) (x' ∷ ys)
  AllEmbedded-cons set left c id x x' xs ys e all = record {
    keeps = λ o d i h. ground (arith, spends-keeps set c id x x' o d i e, all.keeps o d i);
    readable = (e.readable, all.readable);
    covers = λ o m l. elim (Bool-cases (bitcoin x.outpoint === o)) [
      | inl q ↦
          let p : bitcoin x.outpoint ≡ o = (chain_beq_iff (bitcoin x.outpoint) o).0 q in
          let hit : spends o c id x' ≡ true =
            subst (λ o'. contains o' set ≡ true → spends o' c id x' ≡ true) p
              (spends-sets set c id x x' e) m in
          rw hit refl
      | inr q ↦
          let member : contains o (erase (bitcoin x.outpoint) set) ≡ true =
            contains-erase (bitcoin x.outpoint) o set ∙ rw q m in
          ground (arith, all.covers o member l)
    ];
  }

  embed_inputs_step :
      (set : List XOutpoint) (c id : ℕ) (x : Input) (xs : List Input)
      (r : Result EmbedError (Unit {0}))
      → (embed_input keys set c id x).1 ≡ r
      → (embed_inputs keys set c id (x ∷ xs)).2 ≡ ok tt
      → let rest = embed_inputs keys (erase (bitcoin x.outpoint) set) c id xs in
        ((embed_input keys set c id x).1 ≡ ok tt)
        × ((embed_inputs keys set c id (x ∷ xs)).0 ≡ (embed_input keys set c id x).0 ∷ rest.0)
        × ((embed_inputs keys set c id (x ∷ xs)).1 ≡ rest.1)
        × (rest.2 ≡ ok tt)
  unfolding embed_inputs
  embed_inputs_step set c id x xs (ok _) e h =
      (e, rw (e, embed_inputs), rw (e, embed_inputs), rw (e, embed_inputs) at h)
  embed_inputs_step set c id x xs (err k) e h =
      let stopped : err k ≡ ok tt = rw (e, embed_inputs) at h in cc
  embed_inputs_step set c id x xs panic e h =
      let stopped : ◌≡◌ {A = Result EmbedError (Unit {0})} panic (ok tt) =
        rw (e, embed_inputs) at h in
      cc

  pub embed_inputs-AllEmbedded :
      (set : List XOutpoint) (c id : ℕ) (xs : List Input)
      → All IsReadable xs
      → let (ys, left, r) = embed_inputs keys set c id xs in
        r ≡ ok tt → AllEmbedded set left c id xs ys
  unfolding embed_inputs
  embed_inputs-AllEmbedded set c id [] readable h = record {
    keeps = λ o d i e. e;
    readable = tt;
    covers = λ o m l. cc;
  }
  embed_inputs-AllEmbedded set c id (x ∷ xs) readable h =
      let set' = erase (bitcoin x.outpoint) set in
      let (done, ys, left, rest) =
        embed_inputs_step set c id x xs (embed_input keys set c id x).1 refl h in
      rw (ys, left)
        (AllEmbedded-cons set (embed_inputs keys set' c id xs).1 c id x
          (embed_input keys set c id x).0 xs (embed_inputs keys set' c id xs).0
          (embed_input-Embedded set c id x readable.0 done)
          (embed_inputs-AllEmbedded set' c id xs readable.1 rest))
