-- ===== src/Resolver/Locate.antt =====
-- `resolve_height` of src/resolvers/electrum_blocking.rs for a mined transaction: the heights that
-- it tries, and its count of new headers.
use Prim.Native.Nat.{ℕ}
use rgb.Base.{
  suc, zero, ◌&&◌, ==_iff, ◌+◌, ◌-◌, ◌^◌, ◌≤◌, ◌<◌, ◌==◌, ◌≡◌, ◌≢◌, refl, ap, ◌∙◌, inl, inr, Bool,
  true, false, ◌||◌, Option, none, some, List, [], ◌∷◌, ◌++◌, Result, ok, err, panic, arith, any,
  Bool-cases, leb,
}
use rgb.Chain.{bitcoin, on_chain}
use rgb.Resolver.Electrum.{
  ElectrumApi, offsets, from_to, count_headers, find_merkle, locate, after_get, resolve_height,
  after_subscribe,
}

module _ (p : ℕ → Bool) where
  any-append : (xs ys : List ℕ) → any p (xs ++ ys) ≡ (any p xs || any p ys)
  any-append [] ys = refl
  any-append (x ∷ xs) ys = ground (arith, any-append xs ys)

  any-from_to :
      (first n o : ℕ) → first ≤ o → o < first + n → p o ≡ true → any p (from_to first n) ≡ true
  any-from_to first zero o h k e = absurd (omega arith)
  any-from_to first (suc n) o h k e = elim (Bool-cases (o == first)) [
    | inl here ↦ ground arith
    | inr later ↦ ground (arith, any-from_to (first + 1) n o)
  ]

  at_margin :
      (forward o : ℕ)
      → o ≤ forward + 2
      → (leb 1 o && leb o (forward + 1)) ≡ false
      → p o ≡ true
      → any p ((1 + forward + 1) ∷ 0 ∷ []) ≡ true
  at_margin forward o h m e = elim (Bool-cases (o == 0)) [
    | inl z ↦ let e0 : p 0 ≡ true = rw (← (==_iff o 0).0 z) e in ground arith
    | inr nz ↦
        let q : o ≡ 1 + forward + 1 = ground arith in
        let e1 : p (1 + forward + 1) ≡ true = rw (← q) e in ground arith
  ]

  -- every offset of the window is tried
  any-offsets : (forward o : ℕ) → o ≤ forward + 2 → p o ≡ true → any p (offsets forward) ≡ true
  unfolding offsets
  any-offsets forward o h e = elim (Bool-cases (leb 1 o && leb o (forward + 1))) [
    | inl inside ↦ ground (
      arith,
      any-append (from_to 1 (forward + 1)) ((1 + forward + 1) ∷ 0 ∷ []),
      any-from_to 1 (forward + 1) o,
    )
    | inr margin ↦ ground (
      arith,
      any-append (from_to 1 (forward + 1)) ((1 + forward + 1) ∷ 0 ∷ []),
      at_margin forward o,
    )
  ]

module _ (api : ElectrumApi) (overflow_checks : Bool) where
  open api use {
    Client, Error, Json, to_string, show_txid, block_headers_subscribe, block_headers_pop,
    transaction_get_verbose, get, as_u64, as_i64, transaction_get_merkle, new_pos,
  }

  count_headers_step :
      (fuel : ℕ) (c : Client) (popped : Result Error (Option ℕ))
      → (block_headers_pop c).1 ≡ popped
      → ((header : ℕ)
          → (block_headers_pop c).1 ≡ ok (some header)
          → (d : Client) × (n : ℕ) × (count_headers api overflow_checks fuel (block_headers_pop c).0
              ≡ some (d, n)))
      → (d : Client) × (n : ℕ) × (count_headers api overflow_checks (suc fuel) c ≡ some (d, n))
  unfolding count_headers
  count_headers_step fuel c (ok (some x)) e ih = let (d, n, q) = ih x e in (d, n + 1, ground arith)
  count_headers_step fuel c (ok none) e ih = ((block_headers_pop c).0, 0, ground arith)
  count_headers_step fuel c (err x) e ih = ((block_headers_pop c).0, 0, ground arith)
  count_headers_step fuel c panic e ih = ((block_headers_pop c).0, 0, ground arith)

  -- The loop over the announced headers ends: fuel beyond a measure of the queue is enough.
  pub count_headers_total :
      (pending : Client → ℕ)
      → ((c : Client) (header : ℕ)
          → (block_headers_pop c).1 ≡ ok (some header)
          → pending (block_headers_pop c).0 < pending c)
      → (fuel : ℕ) (c : Client) → pending c < fuel
      → (d : Client) × (n : ℕ) × (count_headers api overflow_checks fuel c ≡ some (d, n))
  unfolding count_headers
  count_headers_total pending falls zero c h = absurd (omega arith)
  count_headers_total pending falls (suc fuel) c h =
      count_headers_step fuel c (block_headers_pop c).1 refl (λ x e.
        count_headers_total pending falls fuel (block_headers_pop c).0 (omega (arith, falls c x e)))

  find_merkle_at :
      (c : Client) (txid height h : ℕ)
      → transaction_get_merkle c txid h ≡ ok h
      → ((n : ℕ) → n ≢ h → (e : Error) × (transaction_get_merkle c txid n ≡ err e))
      → (offs : List ℕ) → any (λ o. (height + o) == h) offs ≡ true
      → find_merkle api overflow_checks c txid height offs ≡ some h
  unfolding find_merkle
  find_merkle_at c txid height h proof only [] e = cc
  find_merkle_at c txid height h proof only (o ∷ offs) e = elim (Bool-cases ((height + o) == h)) [
    | inl here ↦ let q : height + o ≡ h = ground arith in rw (q, find_merkle) (ground arith)
    | inr there ↦ ground (arith, only (height + o), find_merkle_at c txid height h proof only offs)
  ]

  locate_at :
      (c : Client) (txid tip forward d h : ℕ) (details v w : Json) (time : api.I64)
      (pos : api.WitnessPos)
      → as_u64 v ≡ some (tip + d + 1 - h)
      → get details "blocktime" ≡ some w
      → as_i64 w ≡ some time
      → tip < 2 ^ 32
      → d ≤ forward
      → d + 1 ≤ h
      → h ≤ tip + d
      → h < 2 ^ 32
      → transaction_get_merkle c txid h ≡ ok h
      → ((n : ℕ) → n ≢ h → (e : Error) × (transaction_get_merkle c txid n ≡ err e))
      → new_pos h time ≡ some pos
      → locate api overflow_checks c txid tip forward details (some v)
        ≡ ok (record { witness_ord = on_chain pos; witness_id = bitcoin txid })
  unfolding locate
  locate_at c txid tip forward d h details v w time pos conf hw ht tip32 df dh hd h32 proof only
        at =
      let conf32 : tip + d + 1 - h < 2 ^ 32 = omega arith in
      ground (
        arith,
        find_merkle_at c txid (tip - (tip + d + 1 - h)) h proof only (offsets forward),
        any-offsets (λ o. ((tip - (tip + d + 1 - h)) + o) == h) forward (d + 1),
      )

  -- A transaction that is mined at height `h`, with its confirmations counted when `d` more blocks
  -- than the tip had come, is located: `resolve_height` reports its position, provided that the
  -- client has announced at least those `d` blocks, that the server has a Merkle proof at `h` and
  -- only there, that numbers are in the range of `u32` and the fuel exceeds the announced headers.
  pub resolve_height_mined :
      (pending : Client → ℕ)
      → ((c : Client) (header : ℕ)
          → (block_headers_pop c).1 ≡ ok (some header)
          → pending (block_headers_pop c).0 < pending c)
      → (fuel txid tip d h : ℕ) (c c1 c2 : Client) (details v w : Json) (time : api.I64)
        (pos : api.WitnessPos)
      → block_headers_subscribe c ≡ (c1, ok tip)
      → transaction_get_verbose c1 (show_txid txid) ≡ (c2, ok details)
      → pending c2 < fuel
      → ((c3 : Client) (forward : ℕ)
          → count_headers api overflow_checks fuel c2 ≡ some (c3, forward)
          → d ≤ forward)
      → get details "confirmations" ≡ some v
      → as_u64 v ≡ some (tip + d + 1 - h)
      → get details "blocktime" ≡ some w
      → as_i64 w ≡ some time
      → tip < 2 ^ 32
      → d + 1 ≤ h
      → h ≤ tip + d
      → h < 2 ^ 32
      → ((c3 : Client) → transaction_get_merkle c3 txid h ≡ ok h)
      → ((c3 : Client) (n : ℕ) → n ≢ h → (e : Error) × (transaction_get_merkle c3 txid n ≡ err e))
      → new_pos h time ≡ some pos
      → (resolve_height api overflow_checks fuel c txid).1
        ≡ ok (record { witness_ord = on_chain pos; witness_id = bitcoin txid })
  unfolding resolve_height after_get
  resolve_height_mined pending falls fuel txid tip d h c c1 c2 details v w time pos sub got fueled
        announced conf confs bt ht tip32 dh hd h32 proof only at =
      let (c3, forward, counted) = count_headers_total pending falls fuel c2 fueled in
      let found : (after_get api overflow_checks fuel c2 txid tip (ok details)).1
          ≡ ok (record { witness_ord = on_chain pos; witness_id = bitcoin txid }) =
        rw (after_get, counted, conf)
          (locate_at c3 txid tip forward d h details v w time pos confs bt ht tip32
            (announced c3 forward counted) dh hd h32 (proof c3) (only c3) at) in
      ap (λ x. (after_subscribe api overflow_checks fuel x.0 txid x.1).1) sub
      ∙ ap (λ x. (after_get api overflow_checks fuel x.0 txid tip x.1).1) got
      ∙ found
