-- ===== src/Pay/Errors.antt =====
-- The errors of a payment: src/errors.rs. The errors of other crates inside are type parameters, and
-- those that are kept as text are texts.
use rgb.Base.{String}
use rgb.Descriptor.Tapret.{TapTweakAlreadyAssigned}
use rgb.Psbt.Embed.{EmbedError}

pub data CompositionError (Construction Interface : Type 0) : Type 0 where
  no_contract no_iface no_operation no_assignment : CompositionError Construction Interface
  insufficient_state invoice_expired tapret_required unsupported :
      CompositionError Construction Interface
  construction : Construction → CompositionError Construction Interface
  interface : Interface → CompositionError Construction Interface
  embed : EmbedError → CompositionError Construction Interface
  stock : String → CompositionError Construction Interface

pub data CompletionError (TapretKey Commit : Type 0) : Type 0 where
  no_contract no_beneficiary_output inconclusive_derivation : CompletionError TapretKey Commit
  multiple_tweaks : TapTweakAlreadyAssigned → CompletionError TapretKey Commit
  tapret_key : TapretKey → CompletionError TapretKey Commit
  commit : Commit → CompletionError TapretKey Commit
  stock : String → CompletionError TapretKey Commit

pub data PayError (Composition Completion : Type 0) : Type 0 where
  composition : Composition → PayError Composition Completion
  completion : Completion → PayError Composition Completion
