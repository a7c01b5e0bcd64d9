-- ===== src/Psbt/Api.antt =====
-- What psbt/src takes from the psbt, bp, commit_verify and rgbstd crates. Contract and operation ids
-- are numbers with a byte form; an input is its outpoint and its proprietary map.
use rgb.Base.{ℕ, ◌≡◌, ◌≢◌, Option, none, some, Result}
use rgb.Base.Map.{lookup}
use rgb.Chain.{Outpoint}
use rgb.Descriptor.Keychain.{CloseMethod}
use rgb.Psbt.Key.{Bytes, PropKey, KeyMap, prop_key}

pub data FromSliceError : Type 0 where
  from_slice_error : FromSliceError

pub data KeyAlreadyPresent : Type 0 where
  key_already_present : PropKey → KeyAlreadyPresent

pub record Input : Type 0 where
  pub outpoint : Outpoint
  pub proprietary : KeyMap

-- The byte forms of ids, and the insertion into a proprietary map.
pub record KeyApi : Type 0 where
  pub to_vec : ℕ → Bytes
  -- `copy_from_slice` of an id, which fails on another number of bytes
  pub copy_from_slice : Bytes → Option ℕ
  -- `push_proprietary`, as it changes the map of its PSBT, input or output
  pub push_proprietary : KeyMap → PropKey → Bytes → KeyMap × Result KeyAlreadyPresent (Unit {0})
  -- the byte of a close method, and the method of a byte
  pub method_byte : CloseMethod → ℕ
  pub method_try_from : ℕ → Option CloseMethod

-- Bytes of an id are read back as that id; a key that is absent is inserted with its value, and an
-- insertion touches no other key; the byte of a method is read back as that method.
pub record KeyLaws (api : KeyApi) : Type 0 where
  pub copy-to_vec : (id : ℕ) → api.copy_from_slice (api.to_vec id) ≡ some id
  pub push_absent :
      (m : KeyMap) (k : PropKey) (v : Bytes)
      → lookup k m ≡ none
      → lookup k (api.push_proprietary m k v).0 ≡ some v
  pub push_other :
      (m : KeyMap) (k j : PropKey) (v : Bytes)
      → j ≢ k
      → lookup j (api.push_proprietary m k v).0 ≡ lookup j m
  pub try_from-byte : (m : CloseMethod) → api.method_try_from (api.method_byte m) ≡ some m
