-- ===== src/Descriptor/Api.antt =====
-- What src/descriptor.rs takes from the bpstd, bp and descriptors crates: key derivation, taproot
-- trees, and the `Wpkh` descriptor. A terminal is a keychain and an index; an `IndexMap` is a list
-- of its entries.
use rgb.Base.{ℕ, List}

abbrev pub Terminal : Type 0
Terminal = ℕ × ℕ

pub data SpkClass : Type 0 where
  bare p2pkh p2sh p2wpkh p2wsh p2tr : SpkClass

pub record DescriptorApi : Type 1 where
  -- the key type, `XpubDerivable`, and what it derives
  pub XpubDerivable : Type 0
  pub XOnlyPk : Type 0
  pub CompressedPk : Type 0
  pub XpubSpec : Type 0
  pub KeyOrigin : Type 0
  pub TapDerivation : Type 0
  pub derive_xonly : XpubDerivable → ℕ → ℕ → XOnlyPk
  pub xpub_spec : XpubDerivable → XpubSpec
  pub origin : XpubSpec → KeyOrigin
  pub with_internal_pk : KeyOrigin → Terminal → TapDerivation
  -- taproot commitments
  pub TapretCommitment : Type 0
  pub TapScript : Type 0
  pub TapTree : Type 0
  pub commit : TapretCommitment → TapScript
  pub with_single_leaf : TapScript → TapTree
  -- the standard descriptors
  pub Wpkh : Type 0
  pub TrKey : Type 0
  pub OtherDescr : Type 0
  pub OtherScript : Type 0
  pub into_internal_key : TrKey → XpubDerivable
  pub wpkh_from : XpubDerivable → Wpkh
  pub wpkh_default_keychain : Wpkh → ℕ
  pub wpkh_keychains : Wpkh → List ℕ
  pub wpkh_derive : Wpkh → ℕ → ℕ → OtherScript
  pub wpkh_class : Wpkh → SpkClass
  pub wpkh_keys : Wpkh → List XpubDerivable
  pub wpkh_xpubs : Wpkh → List XpubSpec
  pub wpkh_compr_keyset : Wpkh → Terminal → List (CompressedPk × KeyOrigin)
  pub wpkh_xonly_keyset : Wpkh → Terminal → List (XOnlyPk × TapDerivation)
