-- ===== src/Psbt/Inputs.antt =====
-- The reads over all inputs of a PSBT: `rgb_contract_ids`, `rgb_contract_consumers` and `rgb_op_ids`
-- of psbt/src/rgb.rs.
use text.Mathlib.Text.{◌==◌ as str_eq}
use rgb.Base.{
  ℕ, ◌+◌, ◌%◌, ◌^◌, Bool, ◌&&◌, ◌==◌, Option, none, some, List, [], ◌∷◌, ◌++◌, map, keep, Result,
  ok, err, panic, ok_or, ◌>>=◌,
}
use rgb.Base.Key.{nat_key, pair_key}
use rgb.Base.Map.{add}
use rgb.Psbt.Key.{PropKey, psbt_rgb_prefix, psbt_in_rgb_consumed_by}
use rgb.Psbt.Api.{FromSliceError, from_slice_error, Input, KeyApi}
use rgb.Psbt.Consumer.{rgb_consumer}

-- `collect::<Result<BTreeSet<_>, _>>()`: the first error, or the set of all values
unfoldable pub collect_set : List (Result FromSliceError ℕ) → Result FromSliceError (List ℕ)
collect_set [] = ok []
collect_set (r ∷ rest) = do x ← r; xs ← collect_set rest; ok (add x xs)

abbrev pub is_consumed_by : PropKey → Bool
is_consumed_by k = str_eq k.identifier psbt_rgb_prefix && k.subtype == psbt_in_rgb_consumed_by

module _ (api : KeyApi) where
  open api use {copy_from_slice}

  abbrev pub id_of : PropKey → Result FromSliceError ℕ
  id_of k = ok_or (copy_from_slice k.payload) from_slice_error

  abbrev pub keys_of : Input → List PropKey
  keys_of input = map (λ e. e.0) input.proprietary

  unfoldable pub ids_of_inputs : List Input → List (Result FromSliceError ℕ)
  ids_of_inputs [] = []
  ids_of_inputs (input ∷ rest) =
      map id_of (keep is_consumed_by (keys_of input)) ++ ids_of_inputs rest

  unfoldable pub rgb_contract_ids : List Input → Result FromSliceError (List ℕ)
  unfolding ids_of_inputs collect_set
  rgb_contract_ids inputs = collect_set (ids_of_inputs inputs)

  abbrev pub insert_consumer : Option ℕ → ℕ → List (ℕ × ℕ) → List (ℕ × ℕ)
  insert_consumer none vin consumers = consumers
  insert_consumer (some opid) vin consumers = add (opid, vin % 2 ^ 32) consumers

  -- the loop of `rgb_contract_consumers` from input number `vin`; `Vin` is a `u32`
  unfoldable pub consumers_from :
      ℕ → List Input → ℕ → List (ℕ × ℕ) → Result FromSliceError (List (ℕ × ℕ))
  consumers_from vin [] contract_id consumers = ok consumers
  consumers_from vin (input ∷ rest) contract_id consumers = do
    opid ← rgb_consumer api input contract_id
    consumers_from (vin + 1) rest contract_id (insert_consumer opid vin consumers)

  unfoldable pub rgb_contract_consumers : List Input → ℕ → Result FromSliceError (List (ℕ × ℕ))
  unfolding consumers_from
  rgb_contract_consumers inputs contract_id = consumers_from 0 inputs contract_id []

  -- `filter_map` with `transpose`: absent consumers are left out, errors stay
  abbrev transposed : Result FromSliceError (Option ℕ) → List (Result FromSliceError ℕ)
  transposed (ok none) = []
  transposed (ok (some id)) = ok id ∷ []
  transposed (err e) = err e ∷ []
  transposed panic = panic ∷ []

  unfoldable pub opids_of_inputs : List Input → ℕ → List (Result FromSliceError ℕ)
  opids_of_inputs [] contract_id = []
  opids_of_inputs (input ∷ rest) contract_id =
      transposed (rgb_consumer api input contract_id) ++ opids_of_inputs rest contract_id

  unfoldable pub rgb_op_ids : List Input → ℕ → Result FromSliceError (List ℕ)
  unfolding opids_of_inputs collect_set
  rgb_op_ids inputs contract_id = collect_set (opids_of_inputs inputs contract_id)
