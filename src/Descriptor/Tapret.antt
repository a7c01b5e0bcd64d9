-- ===== src/Descriptor/Tapret.antt =====
-- `TapretKey` of src/descriptor.rs: a taproot key and the tweaks that were put on its terminals.
use rgb.Base.{ℕ, ◌==◌, List, [], ◌∷◌, Option, none, some, Result, ok, err, if◌then◌else◌}
use rgb.Base.Key.{nat_key, pair_key}
use rgb.Base.Map.{lookup, contains_key, insert, to_set}
use rgb.Descriptor.Keychain.{external, internal, rgb_chain, tapret, to_keychain}
use rgb.Descriptor.Keychain.{CloseMethod, tapret_first}
use rgb.Descriptor.Api.{Terminal, SpkClass, p2tr, DescriptorApi}

-- The error carries the terminal.
pub data TapTweakAlreadyAssigned : Type 0 where
  already_assigned : Terminal → TapTweakAlreadyAssigned

-- `DerivedScript` of bpstd; `other` is a script that another descriptor derived.
pub data DerivedScript (Key Tree Script : Type 0) : Type 0 where
  taproot_script : Key → Tree → DerivedScript Key Tree Script
  taproot_key_only : Key → DerivedScript Key Tree Script
  other : Script → DerivedScript Key Tree Script

pub record TapretKey (K Tweak : Type 0) : Type 0 where
  pub internal_key : K
  pub tweaks : List (Terminal × Tweak)

unfoldable pub new_unfunded : {K Tweak : Type 0} → K → TapretKey K Tweak
new_unfunded internal_key = record { internal_key = internal_key; tweaks = [] }

-- `From<K>`
unfoldable pub from_key : {K Tweak : Type 0} → K → TapretKey K Tweak
from_key tr = record { internal_key = tr; tweaks = [] }

unfoldable pub add_tapret_tweak :
    {K Tweak : Type 0}
    → TapretKey K Tweak
    → Terminal
    → Tweak
    → Result TapTweakAlreadyAssigned (TapretKey K Tweak)
add_tapret_tweak d terminal tweak =
    if contains_key terminal d.tweaks
    then err (already_assigned terminal)
    else ok (record d { tweaks = insert terminal tweak d.tweaks })

module _ (api : DescriptorApi) where
  open api use {
    XpubDerivable, XOnlyPk, CompressedPk, XpubSpec, KeyOrigin, TapDerivation, derive_xonly,
    xpub_spec, origin, with_internal_pk, TapretCommitment, TapTree, commit, with_single_leaf, TrKey,
    OtherScript, into_internal_key,
  }

  abbrev pub Tapret : Type 0
  Tapret = TapretKey XpubDerivable TapretCommitment

  abbrev pub Script : Type 0
  Script = DerivedScript XOnlyPk TapTree OtherScript

  -- `From<TrKey<K>>`
  unfoldable pub from_tr_key : TrKey → Tapret
  from_tr_key tr = record { internal_key = into_internal_key tr; tweaks = [] }

  unfoldable pub default_keychain : Tapret → ℕ
  unfolding to_keychain
  default_keychain d = to_keychain rgb_chain

  unfoldable pub keychains : Tapret → List ℕ
  unfolding to_keychain
  keychains d = to_set (
      to_keychain external ∷ to_keychain internal ∷ to_keychain rgb_chain ∷ to_keychain tapret ∷ [])

  -- the script of a terminal with the tweak that is stored for it, if any
  abbrev pub derive_tweaked : XOnlyPk → Option TapretCommitment → Script
  derive_tweaked key none = taproot_key_only key
  derive_tweaked key (some tweak) = taproot_script key (with_single_leaf (commit tweak))

  unfoldable pub derive : Tapret → ℕ → ℕ → Script
  unfolding to_keychain
  derive d keychain index =
      let key = derive_xonly d.internal_key keychain index in
      if keychain == to_keychain tapret
      then derive_tweaked key (lookup (keychain, index) d.tweaks)
      else taproot_key_only key

  unfoldable pub class : Tapret → SpkClass
  class d = p2tr

  unfoldable pub keys : Tapret → List XpubDerivable
  keys d = d.internal_key ∷ []

  unfoldable pub vars : Tapret → List (Unit {0})
  vars d = []

  unfoldable pub xpubs : Tapret → List XpubSpec
  xpubs d = xpub_spec d.internal_key ∷ []

  unfoldable pub compr_keyset : Tapret → Terminal → List (CompressedPk × KeyOrigin)
  compr_keyset d terminal = []

  unfoldable pub xonly_keyset : Tapret → Terminal → List (XOnlyPk × TapDerivation)
  xonly_keyset d (keychain, index) =
      (
        derive_xonly d.internal_key keychain index,
        with_internal_pk (origin (xpub_spec d.internal_key)) (keychain, index),
      )
      ∷ []

  unfoldable pub seal_close_method : Tapret → CloseMethod
  seal_close_method d = tapret_first
