-- ===== src/Psbt/Consumer.antt =====
-- `RgbInExt` of psbt/src/rgb.rs: which operation consumes an input, for each contract.
use rgb.Base.{
  ℕ, Bool, true, false, ◌==◌, ◌≡◌, ◌≢◌, ap, Option, none, some, Result, ok, err, panic, arith,
  ok_or, ◌>>=◌, if◌then◌else◌,
}
use rgb.Base.Map.{lookup}
use rgb.Psbt.Key.{Bytes, PropKey, prop_key, rgb_in_consumed_by_key}
use rgb.Psbt.Api.{
  FromSliceError, from_slice_error, KeyAlreadyPresent, key_already_present, Input, KeyApi, KeyLaws,
}

module _ (api : KeyApi) where
  open api use {to_vec, copy_from_slice, push_proprietary}

  -- the value under a key, read as an operation id
  unfoldable pub read_opid : Option Bytes → Result FromSliceError (Option ℕ)
  read_opid none = ok none
  read_opid (some bytes) = do id ← ok_or (copy_from_slice bytes) from_slice_error; ok (some id)

  unfoldable pub rgb_consumer : Input → ℕ → Result FromSliceError (Option ℕ)
  unfolding read_opid
  rgb_consumer input contract_id =
      read_opid (lookup (rgb_in_consumed_by_key to_vec contract_id) input.proprietary)

  abbrev pub pushed : Input → PropKey → ℕ → Input
  pushed input key opid = record input {
    proprietary = (push_proprietary input.proprietary key (to_vec opid)).0;
  }

  -- the arms of `set_rgb_consumer`, by what `rgb_consumer` returned
  unfoldable pub set_by_consumer :
      Input → PropKey → ℕ → Result FromSliceError (Option ℕ) → Input × Result KeyAlreadyPresent Bool
  set_by_consumer input key opid (ok none) = (pushed input key opid, ok true)
  set_by_consumer input key opid (err e) = (pushed input key opid, ok true)
  set_by_consumer input key opid (ok (some id)) =
      (input, if id == opid then ok false else err (key_already_present key))
  set_by_consumer input key opid panic = (input, panic)

  unfoldable pub set_rgb_consumer : Input → ℕ → ℕ → Input × Result KeyAlreadyPresent Bool
  unfolding rgb_consumer set_by_consumer
  set_rgb_consumer input contract_id opid =
      set_by_consumer input (rgb_in_consumed_by_key to_vec contract_id) opid
        (rgb_consumer input contract_id)

-- The keys of two contracts differ.
module _ {api : KeyApi} (laws : KeyLaws api) where
  open api use {to_vec, copy_from_slice, push_proprietary}

  pub to_vec_inj : (a b : ℕ) → to_vec a ≡ to_vec b → a ≡ b
  to_vec_inj a b e = cc (laws.copy-to_vec a, laws.copy-to_vec b)

  pub consumed_by_key_ne :
      (a b : ℕ) → a ≢ b → rgb_in_consumed_by_key to_vec a ≢ rgb_in_consumed_by_key to_vec b
  unfolding rgb_in_consumed_by_key
  consumed_by_key_ne a b ne e = ne (to_vec_inj a b (ap (λ k. k.payload) e))

  -- `set_rgb_consumer` on each of its branches
  pub set_rgb_consumer_lem :
      (input : Input) (contract_id opid : ℕ)
      → let (input', r) = set_rgb_consumer api input contract_id opid in
        (rgb_consumer api input contract_id ≡ ok none
          → (r ≡ ok true) × (rgb_consumer api input' contract_id ≡ ok (some opid)))
        × (rgb_consumer api input contract_id ≡ ok (some opid) → (r ≡ ok false) × (input' ≡ input))
        × ((id : ℕ)
            → id ≢ opid
            → rgb_consumer api input contract_id ≡ ok (some id)
            → (r ≡ err (key_already_present (rgb_in_consumed_by_key to_vec contract_id)))
              × (input' ≡ input))
        × ((other : ℕ)
            → other ≢ contract_id
            → rgb_consumer api input' other ≡ rgb_consumer api input other)
        × (input'.outpoint ≡ input.outpoint)
  unfolding set_rgb_consumer rgb_consumer
  set_rgb_consumer_lem input contract_id opid =
      let key = rgb_in_consumed_by_key to_vec contract_id in
      let absent = laws.push_absent input.proprietary key (to_vec opid) in
      (
        λ h. (ground arith, ground (arith, absent, laws.copy-to_vec opid)),
        λ h. (ground arith, ground arith),
        λ id ne h. (ground arith, ground arith),
        λ other ne. ground (
          arith,
          laws.push_other input.proprietary key (rgb_in_consumed_by_key to_vec other) (to_vec opid)
              (consumed_by_key_ne other contract_id ne),
        ),
        ground arith,
      )

  -- Where an input has no consumer for a contract, `set_rgb_consumer` returns `true` and sets it: the
  -- consumer is read back, the consumers of the other contracts stay, and so does the outpoint. To
  -- set the same consumer again returns `false` and changes nothing.
  pub set_rgb_consumer_fresh :
      (input : Input) (contract_id opid other : ℕ)
      → rgb_consumer api input contract_id ≡ ok none
      → other ≢ contract_id
      → let (input', r) = set_rgb_consumer api input contract_id opid in
        (r ≡ ok true)
        × (rgb_consumer api input' contract_id ≡ ok (some opid))
        × (set_rgb_consumer api input' contract_id opid ≡ (input', ok false))
        × (rgb_consumer api input' other ≡ rgb_consumer api input other)
        × (input'.outpoint ≡ input.outpoint)
  set_rgb_consumer_fresh input contract_id opid other absent ne =
      let (fresh, same, taken, others, at) = set_rgb_consumer_lem input contract_id opid in
      let (done, set) = fresh absent in
      let input' = (set_rgb_consumer api input contract_id opid).0 in
      let (again, stays, taken2, others2, at2) = set_rgb_consumer_lem input' contract_id opid in
      let (r, unchanged) = stays set in (done, set, (λ i. (unchanged i, r i)), others other ne, at)
