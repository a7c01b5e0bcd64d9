-- ===== src/Psbt/Embed.antt =====
-- `rgb_embed` of psbt/src/lib.rs: a batch of transitions is written into a PSBT.
use rgb.Base.{ℕ, List, [], ◌∷◌, Result, ok, err, panic, if◌then◌else◌, is_empty}
use rgb.Base.Key.{nat_key, pair_key}
use rgb.Base.Map.{contains, erase}
use rgb.Chain.{bitcoin, XOutpoint, chain_key}
use rgb.Descriptor.Keychain.{CloseMethod}
use rgb.Psbt.Api.{Input, KeyApi}
use rgb.Psbt.Bundles.{Psbt}
use rgb.Psbt.Consumer.{set_rgb_consumer}
use rgb.Psbt.Transition.{TransitionApi, push_rgb_transition}

pub data EmbedError : Type 0 where
  absent_inputs psbt_repeated_inputs : EmbedError

-- one transition of a batch, with the outputs that it spends
pub record TransitionInfo (T : Type 0) : Type 0 where
  pub id : ℕ
  pub inputs : List XOutpoint
  pub transition : T
  pub method : CloseMethod

module _ (keys : KeyApi) where
  -- the input as it is after the loop body, and whether the loop goes on
  abbrev pub embed_input : List XOutpoint → ℕ → ℕ → Input → Input × Result EmbedError (Unit {0})
  embed_input set contract_id opid input =
      if contains (bitcoin input.outpoint) set
      then (let (input', r) = set_rgb_consumer keys input contract_id opid in
          elim r [
            | ok flag ↦ (input', ok tt)
            | err e ↦ (input', err psbt_repeated_inputs)
            | panic ↦ (input', panic)
          ])
      else (input, ok tt)

  -- the loop over the inputs: the inputs, what is left of the set, and the outcome
  unfoldable pub embed_inputs :
      List XOutpoint
      → ℕ
      → ℕ
      → List Input
      → List Input × List XOutpoint × Result EmbedError (Unit {0})
  embed_inputs set contract_id opid [] = ([], set, ok tt)
  embed_inputs set contract_id opid (input ∷ inputs) =
      let (input', r) = embed_input set contract_id opid input in
      let set' = erase (bitcoin input.outpoint) set in
      let (inputs', left, r') = embed_inputs set' contract_id opid inputs in
      elim r [
        | ok _ ↦ (input' ∷ inputs', left, r')
        | err e ↦ (input' ∷ inputs, set', err e)
        | panic ↦ (input' ∷ inputs, set', panic)
      ]

  module _ (api : TransitionApi) {Output : Type 0} where
    open api use {Transition}

    -- the end of the loop body for a transition: `push_rgb_transition(…).expect(…)`
    abbrev pub finish :
        Psbt Output
        → TransitionInfo Transition
        → List Input × List XOutpoint × Result EmbedError (Unit {0})
        → Psbt Output × Result EmbedError (Unit {0})
    finish p info (inputs, left, err e) = (record p { inputs = inputs }, err e)
    finish p info (inputs, left, panic) = (record p { inputs = inputs }, panic)
    finish p info (inputs, left, ok _) =
        if is_empty left
        then (let (m, r) = push_rgb_transition keys api p.proprietary info.transition info.method in
            let p' = record p { inputs = inputs; proprietary = m } in
            elim r [ ok flag ↦ (p', ok tt) | err e ↦ (p', panic) | panic ↦ (p', panic) ])
        else (record p { inputs = inputs }, err absent_inputs)

    unfoldable pub embed_one :
        Psbt Output → TransitionInfo Transition → Psbt Output × Result EmbedError (Unit {0})
    unfolding embed_inputs
    embed_one p info =
        finish p info (embed_inputs info.inputs (api.contract_id info.transition) info.id p.inputs)

    unfoldable pub rgb_embed :
        Psbt Output → List (TransitionInfo Transition) → Psbt Output × Result EmbedError (Unit {0})
    unfolding embed_one
    rgb_embed p [] = (p, ok tt)
    rgb_embed p (info ∷ batch) =
        let (p', r) = embed_one p info in
        elim r [ ok _ ↦ rgb_embed p' batch | err e ↦ (p', err e) | panic ↦ (p', panic) ]
