-- ===== src/Descriptor/Keychain.antt =====
-- `RgbKeychain` of src/descriptor.rs. A `Keychain` is its byte, a number. `parse` stands for
-- `NormalIndex::from_str` of the bpstd crate, with an error type of its own.
use rgb.Base.{
  ℕ, String, Bool, true, false, ◌||◌, ◌==◌, List, [], ◌∷◌, Result, ok, err, map_err, ◌>>=◌,
  if◌then◌else◌,
}

pub data CloseMethod : Type 0 where
  opret_first tapret_first : CloseMethod

pub data RgbKeychain : Type 0 where
  external internal rgb_chain tapret : RgbKeychain

-- `keychain as u8`, by which `Keychain::from` makes a keychain
unfoldable pub to_keychain : RgbKeychain → ℕ
to_keychain external = 0
to_keychain internal = 1
to_keychain rgb_chain = 9
to_keychain tapret = 10

-- `Display`: the digits by which a keychain is written in a derivation path
unfoldable pub display : RgbKeychain → String
display external = "0"
display internal = "1"
display rgb_chain = "9"
display tapret = "10"

-- the constant `RGB_ALL`
abbrev pub rgb_all : List RgbKeychain
rgb_all = rgb_chain ∷ tapret ∷ []

unfoldable pub contains_rgb : ℕ → Bool
unfolding to_keychain
contains_rgb keychain = keychain == to_keychain rgb_chain || keychain == to_keychain tapret

unfoldable pub is_seal : RgbKeychain → Bool
is_seal external = false
is_seal internal = false
is_seal rgb_chain = true
is_seal tapret = true

unfoldable pub for_method : CloseMethod → RgbKeychain
for_method opret_first = rgb_chain
for_method tapret_first = tapret

pub record IndexError : Type 0 where
  pub what : String
  pub invalid : ℕ
  pub start : ℕ
  pub end : ℕ

pub data IndexParseError (E : Type 0) : Type 0 where
  parse_error : E → IndexParseError E
  index_error : IndexError → IndexParseError E

abbrev pub non_standard : ℕ → IndexError
non_standard val = record { what = "non-standard keychain"; invalid = val; start = 0; end = 1 }

-- the arms of `from_str`
abbrev standard : {E : Type 0} → ℕ → Result (IndexParseError E) RgbKeychain
standard val =
    if val == 0
    then ok external
    else if val == 1
    then ok internal
    else err (index_error (non_standard val))

unfoldable pub from_str :
    {E : Type 0} → (String → Result E ℕ) → String → Result (IndexParseError E) RgbKeychain
from_str parse s = do val ← map_err (parse s) parse_error; standard val
