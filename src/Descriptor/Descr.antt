-- ===== src/Descriptor/Descr.antt =====
-- `RgbDescr` of src/descriptor.rs: the two descriptors that an RGB wallet can have. Each method
-- passes on to the descriptor inside.
use rgb.Base.{ℕ, List, [], Result, ok, panic, ◌>>=◌}
use rgb.Descriptor.Keychain.{CloseMethod, opret_first}
use rgb.Descriptor.Api.{Terminal, SpkClass, DescriptorApi}
use rgb.Descriptor.Tapret
use rgb.Descriptor.Tapret.{TapretKey, DerivedScript, other, TapTweakAlreadyAssigned}

pub data RgbDescr (Wpkh K Tweak : Type 0) : Type 0 where
  wpkh : Wpkh → RgbDescr Wpkh K Tweak
  tapret_key : TapretKey K Tweak → RgbDescr Wpkh K Tweak

-- `StdDescr` of the descriptors crate, as far as it is told apart
pub data StdDescr (Wpkh TrKey Other : Type 0) : Type 0 where
  std_wpkh : Wpkh → StdDescr Wpkh TrKey Other
  std_tr_key : TrKey → StdDescr Wpkh TrKey Other
  std_other : Other → StdDescr Wpkh TrKey Other

module _ (api : DescriptorApi) where
  open api use {
    XpubDerivable, XOnlyPk, CompressedPk, XpubSpec, KeyOrigin, TapDerivation, TapretCommitment,
    Wpkh, TrKey, OtherDescr, wpkh_default_keychain, wpkh_keychains, wpkh_derive, wpkh_class,
    wpkh_keys, wpkh_xpubs, wpkh_compr_keyset, wpkh_xonly_keyset,
  }

  abbrev pub Descr : Type 0
  Descr = RgbDescr Wpkh XpubDerivable TapretCommitment

  unfoldable pub default_keychain : Descr → ℕ
  default_keychain (wpkh d) = wpkh_default_keychain d
  default_keychain (tapret_key d) = Tapret.default_keychain api d

  unfoldable pub keychains : Descr → List ℕ
  keychains (wpkh d) = wpkh_keychains d
  keychains (tapret_key d) = Tapret.keychains api d

  unfoldable pub derive : Descr → ℕ → ℕ → Tapret.Script api
  derive (wpkh d) change index = other (wpkh_derive d change index)
  derive (tapret_key d) change index = Tapret.derive api d change index

  unfoldable pub class : Descr → SpkClass
  class (wpkh d) = wpkh_class d
  class (tapret_key d) = Tapret.class api d

  unfoldable pub keys : Descr → List XpubDerivable
  keys (wpkh d) = wpkh_keys d
  keys (tapret_key d) = Tapret.keys api d

  unfoldable pub vars : Descr → List (Unit {0})
  vars d = []

  unfoldable pub xpubs : Descr → List XpubSpec
  xpubs (wpkh d) = wpkh_xpubs d
  xpubs (tapret_key d) = Tapret.xpubs api d

  unfoldable pub compr_keyset : Descr → Terminal → List (CompressedPk × KeyOrigin)
  compr_keyset (wpkh d) terminal = wpkh_compr_keyset d terminal
  compr_keyset (tapret_key d) terminal = Tapret.compr_keyset api d terminal

  unfoldable pub xonly_keyset : Descr → Terminal → List (XOnlyPk × TapDerivation)
  xonly_keyset (wpkh d) terminal = wpkh_xonly_keyset d terminal
  xonly_keyset (tapret_key d) terminal = Tapret.xonly_keyset api d terminal

  unfoldable pub seal_close_method : Descr → CloseMethod
  seal_close_method (wpkh d) = opret_first
  seal_close_method (tapret_key d) = Tapret.seal_close_method api d

  unfoldable pub add_tapret_tweak :
      Descr → Terminal → TapretCommitment → Result TapTweakAlreadyAssigned Descr
  add_tapret_tweak (wpkh d) terminal tweak = panic
  add_tapret_tweak (tapret_key d) terminal tweak = do
    d' ← Tapret.add_tapret_tweak d terminal tweak
    ok (tapret_key d')

  -- `From<StdDescr>`; the arm of the other descriptors is `todo!()`
  unfoldable pub from_std : {E : Type 0} → StdDescr Wpkh TrKey OtherDescr → Result E Descr
  from_std (std_wpkh d) = ok (wpkh d)
  from_std (std_tr_key tr) = ok (tapret_key (Tapret.from_tr_key api tr))
  from_std (std_other d) = panic
