-- ===== src/Tests/Descriptor.antt =====
-- Concrete descriptors: a key is a number, a script the list of the numbers it was made from.
use text.Mathlib.Text.{◌==◌ as str_eq}
use rgb.Base.{
  ap, arith, panic, if◌then◌else◌, ℕ, ◌≡◌, ◌↔◌, refl, String, some, List, [], ◌∷◌, Result, ok, err,
  true,
}
use rgb.Base.Key.{nat_key, pair_key}
use rgb.Base.Map.{lookup}
use rgb.Descriptor.Api.{Terminal, DescriptorApi, p2wpkh}
use rgb.Descriptor.Descr
use rgb.Descriptor.Descr.{wpkh, tapret_key}
use rgb.Descriptor.Keychain.{
  CloseMethod, opret_first, tapret, to_keychain, for_method, contains_rgb, is_seal,
}
use rgb.Descriptor.Keychains.{contains_rgb_iff}
use rgb.Descriptor.Tapret.{TapretKey, already_assigned, add_tapret_tweak, derive}
use rgb.Descriptor.Tweaks.{
  add_tapret_tweak_panics, add_all, lookup-add_all, descr_add_tapret_tweak_comm,
}

abbrev descriptors : DescriptorApi
descriptors = record {
  XpubDerivable = ℕ;
  XOnlyPk = List ℕ;
  CompressedPk = List ℕ;
  XpubSpec = ℕ;
  KeyOrigin = ℕ;
  TapDerivation = ℕ × Terminal;
  derive_xonly = λ key keychain index. key ∷ keychain ∷ index ∷ [];
  xpub_spec = λ key. key;
  origin = λ spec. spec;
  with_internal_pk = λ origin terminal. (origin, terminal);
  TapretCommitment = ℕ;
  TapScript = ℕ;
  TapTree = List ℕ;
  commit = λ c. c;
  with_single_leaf = λ script. script ∷ [];
  Wpkh = ℕ;
  TrKey = ℕ;
  OtherDescr = Unit {0};
  OtherScript = List ℕ;
  into_internal_key = λ key. key;
  wpkh_from = λ key. key;
  wpkh_default_keychain = λ key. 0;
  wpkh_keychains = λ key. 0 ∷ 1 ∷ [];
  wpkh_derive = λ key keychain index. key ∷ keychain ∷ index ∷ [];
  wpkh_class = λ key. p2wpkh;
  wpkh_keys = λ key. key ∷ [];
  wpkh_xpubs = λ key. key ∷ [];
  wpkh_compr_keyset = λ key terminal. [];
  wpkh_xonly_keyset = λ key terminal. [];
}

abbrev unfunded : TapretKey ℕ ℕ
unfunded = record { internal_key = 7; tweaks = [] }

abbrev tweaked : TapretKey ℕ ℕ
tweaked = record { internal_key = 7; tweaks = ((10, 3), 42) ∷ [] }

contains_rgb_iff_example :
    ((contains_rgb 9 ≡ true) ↔ ((m : CloseMethod) × (to_keychain (for_method m) ≡ 9)))
    × (is_seal tapret ≡ contains_rgb (to_keychain tapret))
contains_rgb_iff_example = contains_rgb_iff 9 tapret

abbrev parse_digits : String → Result (Unit {0}) ℕ
parse_digits s =
    if str_eq s "0"
    then ok 0
    else if str_eq s "1"
    then ok 1
    else if str_eq s "9"
    then ok 9
    else if str_eq s "10"
    then ok 10
    else err tt

lookup-add_all_example :
    lookup (10, 3) (add_all unfunded (((10, 3), 42) ∷ ((10, 3), 43) ∷ [])).tweaks ≡ some 42
lookup-add_all_example = lookup-add_all unfunded (((10, 3), 42) ∷ ((10, 3), 43) ∷ []) (10, 3)

descr_added :
    Descr.add_tapret_tweak descriptors (tapret_key unfunded) (10, 3) 42 ≡ ok (tapret_key tweaked)
unfolding Descr.add_tapret_tweak add_tapret_tweak
descr_added = refl

abbrev elsewhere : TapretKey ℕ ℕ
elsewhere = record { internal_key = 7; tweaks = ((10, 4), 43) ∷ [] }

descr_added_elsewhere :
    Descr.add_tapret_tweak descriptors (tapret_key unfunded) (10, 4) 43 ≡ ok (tapret_key elsewhere)
unfolding Descr.add_tapret_tweak add_tapret_tweak
descr_added_elsewhere = refl

descr_add_tapret_tweak_comm_example :
    (Descr.add_tapret_tweak descriptors (tapret_key tweaked) (10, 3) 44
      ≡ err (already_assigned (10, 3)))
    × (dtu dut : Descr.Descr descriptors) × (Descr.add_tapret_tweak descriptors
          (tapret_key tweaked)
          (10, 4)
          43
        ≡ ok dtu)
    × (Descr.add_tapret_tweak descriptors (tapret_key elsewhere) (10, 3) 42 ≡ ok dut)
    × (Descr.derive descriptors dtu 10 4 ≡ Descr.derive descriptors dut 10 4)
descr_add_tapret_tweak_comm_example =
    descr_add_tapret_tweak_comm descriptors (tapret_key unfunded) (tapret_key tweaked)
      (tapret_key elsewhere) (10, 3) (10, 4) 42 43 44 10 4 (λ e. omega (arith, ap (λ p. p.1) e))
      descr_added descr_added_elsewhere

add_tapret_tweak_panics_example :
    (Descr.add_tapret_tweak descriptors (wpkh 7) (10, 3) 42 ≡ panic)
    ↔ (Descr.seal_close_method descriptors (wpkh 7) ≡ opret_first)
add_tapret_tweak_panics_example = add_tapret_tweak_panics descriptors (wpkh 7) (10, 3) 42
