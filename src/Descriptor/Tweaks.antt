-- ===== src/Descriptor/Tweaks.antt =====
-- The tweaks of the descriptors of src/descriptor.rs, and the scripts that `derive` makes of them.
use rgb.Base.{
  ℕ, ◌≡◌, ◌≢◌, ◌↔◌, refl, none, some, List, [], ◌∷◌, ok, err, panic, arith, if◌then◌else◌, or_else,
}
use rgb.Base.Key.{nat_key, pair_key, pair_beq_iff, ◌===◌}
use rgb.Base.Map.{lookup, insert, lookup-insert}
use rgb.Descriptor.Api.{Terminal, DescriptorApi}
use rgb.Descriptor.Descr
use rgb.Descriptor.Descr.{wpkh, tapret_key}
use rgb.Descriptor.Keychain.{opret_first}
use rgb.Descriptor.Tapret.{TapretKey, already_assigned, add_tapret_tweak, derive, seal_close_method}

module _ {Tweak : Type 0} where
  lookup-insert_comm :
      (t u v : Terminal) (x y : Tweak) (tweaks : List (Terminal × Tweak))
      → t ≢ u
      → lookup v (insert u y (insert t x tweaks)) ≡ lookup v (insert t x (insert u y tweaks))
  lookup-insert_comm t u v x y tweaks ne =
      rw
        (
          lookup-insert u v y (insert t x tweaks),
          lookup-insert t v x tweaks,
          lookup-insert t v x (insert u y tweaks),
          lookup-insert u v y tweaks,
        )
        (ground (arith, pair_beq_iff t v, pair_beq_iff u v))

module _ {K Tweak : Type 0} where
  -- the two branches of `add_tapret_tweak`
  pub add_tapret_tweak_lem :
      (d : TapretKey K Tweak) (terminal u : Terminal) (tweak : Tweak)
      → ((old : Tweak)
          → lookup terminal d.tweaks ≡ some old
          → add_tapret_tweak d terminal tweak ≡ err (already_assigned terminal))
        × (lookup terminal d.tweaks ≡ none
            → (d' : TapretKey K Tweak) × (add_tapret_tweak d terminal tweak ≡ ok d')
              × (d'.internal_key ≡ d.internal_key)
              × (lookup u d'.tweaks ≡ (if terminal === u then some tweak else lookup u d.tweaks)))
  unfolding add_tapret_tweak
  add_tapret_tweak_lem d terminal u tweak = (
    λ old h. ground arith,
    λ h. (
      record d { tweaks = insert terminal tweak d.tweaks },
      ground arith,
      refl,
      lookup-insert terminal u tweak d.tweaks,
    ),
  )

  -- A wallet adds tweaks one after the other, and a refused one leaves the descriptor alone.
  pub add_all : TapretKey K Tweak → List (Terminal × Tweak) → TapretKey K Tweak
  add_all d [] = d
  add_all d ((t, w) ∷ rest) = elim (add_tapret_tweak d t w) [
    | ok d' ↦ add_all d' rest
    | err e ↦ add_all d rest
    | panic ↦ add_all d rest
  ]

  -- After any number of additions a terminal has the tweak that it had before, or else the first
  -- one that was added for it: no tweak is ever replaced.
  pub lookup-add_all :
      (d : TapretKey K Tweak) (added : List (Terminal × Tweak)) (u : Terminal)
      → lookup u (add_all d added).tweaks ≡ or_else (lookup u d.tweaks) (lookup u added)
  unfolding add_all add_tapret_tweak
  lookup-add_all d [] u = ground arith
  lookup-add_all d ((t, w) ∷ rest) u = ground (
    arith,
    pair_beq_iff t u,
    lookup-insert t u w d.tweaks,
    lookup-add_all d rest u,
    lookup-add_all (record d { tweaks = insert t w d.tweaks }) rest u,
  )

module _ (api : DescriptorApi) where
  open api use {TapretCommitment, derive_xonly}

  -- `add_tapret_tweak` panics exactly on the descriptors that close seals by opret.
  pub add_tapret_tweak_panics :
      (d : Descr.Descr api) (terminal : Terminal) (tweak : TapretCommitment)
      → (Descr.add_tapret_tweak api d terminal tweak ≡ panic)
        ↔ (Descr.seal_close_method api d ≡ opret_first)
  unfolding Descr.add_tapret_tweak Descr.seal_close_method add_tapret_tweak seal_close_method
  add_tapret_tweak_panics (wpkh d) terminal tweak = (λ h. refl, λ h. refl)
  add_tapret_tweak_panics (tapret_key d) terminal tweak = (λ h. absurd (ground arith), λ h. cc)

  -- If a descriptor accepts a tweak for each of two different terminals, it accepts both in either
  -- order and then derives the same scripts everywhere; and a second tweak for the terminal of the
  -- first is refused.
  pub descr_add_tapret_tweak_comm :
      (d dt du : Descr.Descr api) (t u : Terminal) (x y again : TapretCommitment)
      (keychain index : ℕ)
      → t ≢ u
      → Descr.add_tapret_tweak api d t x ≡ ok dt
      → Descr.add_tapret_tweak api d u y ≡ ok du
      → (Descr.add_tapret_tweak api dt t again ≡ err (already_assigned t))
        × (dtu dut : Descr.Descr api) × (Descr.add_tapret_tweak api dt u y ≡ ok dtu)
        × (Descr.add_tapret_tweak api du t x ≡ ok dut)
        × (Descr.derive api dtu keychain index ≡ Descr.derive api dut keychain index)
  unfolding Descr.add_tapret_tweak Descr.derive derive add_tapret_tweak
  descr_add_tapret_tweak_comm (wpkh d) dt du t u x y again keychain index ne ht hu =
      absurd (ground arith)
  descr_add_tapret_tweak_comm (tapret_key d) dt du t u x y again keychain index ne ht hu =
      let both : TapretKey api.XpubDerivable TapretCommitment = record d {
        tweaks = insert u y (insert t x d.tweaks);
      } in
      let swapped : TapretKey api.XpubDerivable TapretCommitment = record d {
        tweaks = insert t x (insert u y d.tweaks);
      } in
      let et : dt ≡ tapret_key (record d { tweaks = insert t x d.tweaks }) = ground arith in
      let eu : du ≡ tapret_key (record d { tweaks = insert u y d.tweaks }) = ground arith in
      (
        rw et (ground (arith, pair_beq_iff t t, lookup-insert t t x d.tweaks)),
        tapret_key both,
        tapret_key swapped,
        rw et (ground (arith, pair_beq_iff t u, lookup-insert t u x d.tweaks)),
        rw eu (ground (arith, pair_beq_iff u t, lookup-insert u t y d.tweaks)),
        rw (lookup-insert_comm t u (keychain, index) x y d.tweaks ne) refl,
      )
