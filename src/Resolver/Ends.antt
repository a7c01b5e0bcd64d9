-- ===== src/Resolver/Ends.antt =====
-- The fuel of the loop in `resolve_height` of src/resolvers/electrum_blocking.rs.
use rgb.Base.{Bool, ℕ, zero, suc, ◌<◌, ◌≡◌, refl, Option, none, some, Result, ok, err, panic, arith}
use rgb.Resolver.Electrum.{ElectrumApi, count_headers, after_get, after_subscribe, resolve_height}
use rgb.Resolver.Locate.{count_headers_total}

module _ (api : ElectrumApi) (overflow_checks : Bool) where
  open api use {
    Client, Error, block_headers_subscribe, block_headers_pop, transaction_get_verbose, show_txid,
  }

  -- each announced header that is taken leaves fewer
  abbrev pub Falls : (Client → ℕ) → Type 0
  Falls pending =
      (c : Client) (header : ℕ)
      → (block_headers_pop c).1 ≡ ok (some header)
      → pending (block_headers_pop c).0 < pending c

  popped_agree :
      (fuel more : ℕ) (c : Client) (r : Result Error (Option ℕ))
      → (block_headers_pop c).1 ≡ r
      → ((header : ℕ)
          → (block_headers_pop c).1 ≡ ok (some header)
          → count_headers api overflow_checks fuel (block_headers_pop c).0
            ≡ count_headers api overflow_checks more (block_headers_pop c).0)
      → count_headers api overflow_checks (suc fuel) c
        ≡ count_headers api overflow_checks (suc more) c
  unfolding count_headers
  popped_agree fuel more c (ok (some x)) e rest = let q = rest x e in ground arith
  popped_agree fuel more c (ok none) e rest = ground arith
  popped_agree fuel more c (err x) e rest = ground arith
  popped_agree fuel more c panic e rest = ground arith

  count_headers_agree :
      (pending : Client → ℕ)
      → Falls pending
      → (fuel more : ℕ) (c : Client) → pending c < fuel
      → pending c < more
      → count_headers api overflow_checks fuel c ≡ count_headers api overflow_checks more c
  unfolding count_headers
  count_headers_agree pending falls zero more c h k = absurd (omega arith)
  count_headers_agree pending falls (suc fuel) zero c h k = absurd (omega arith)
  count_headers_agree pending falls (suc fuel) (suc more) c h k =
      popped_agree fuel more c (block_headers_pop c).1 refl (λ x e.
        count_headers_agree pending falls fuel more (block_headers_pop c).0
          (omega (arith, falls c x e)) (omega (arith, falls c x e)))

  after_get_agree :
      (pending : Client → ℕ)
      → Falls pending
      → (fuel more txid tip : ℕ) (c : Client) (details : Result Error api.Json) → pending c < fuel
      → pending c < more
      → after_get api overflow_checks fuel c txid tip details
        ≡ after_get api overflow_checks more c txid tip details
  unfolding after_get
  after_get_agree pending falls fuel more txid tip c (ok details) h k =
      rw (after_get, count_headers_agree pending falls fuel more c h k) refl
  after_get_agree pending falls fuel more txid tip c (err e) h k = refl
  after_get_agree pending falls fuel more txid tip c panic h k = refl

  -- If each announced header that is taken leaves fewer of them, then with fuel beyond the headers
  -- that are announced once the transaction has been asked for, the count of them ends, and what
  -- `resolve_height` returns is the same for any such fuel.
  pub resolve_height_ends :
      (pending : Client → ℕ)
      → Falls pending
      → (fuel more txid : ℕ) (c : Client)
      → let asked = (transaction_get_verbose (block_headers_subscribe c).0 (show_txid txid)).0 in
        pending asked < fuel
        → pending asked < more
        → ((d : Client) × (n : ℕ) × (count_headers api overflow_checks fuel asked ≡ some (d, n)))
          × (resolve_height api overflow_checks fuel c txid
              ≡ resolve_height api overflow_checks more c txid)
  unfolding resolve_height
  resolve_height_ends pending falls fuel more txid c h k =
      let (c1, header) = block_headers_subscribe c in
      let asked = transaction_get_verbose c1 (show_txid txid) in
      (count_headers_total api overflow_checks pending falls fuel asked.0 h, subscribed header)
    where
      subscribed :
          (header : Result Error ℕ)
          → after_subscribe api overflow_checks fuel (block_headers_subscribe c).0 txid header
            ≡ after_subscribe api overflow_checks more (block_headers_subscribe c).0 txid header
      subscribed (ok tip) =
          let asked = transaction_get_verbose (block_headers_subscribe c).0 (show_txid txid) in
          after_get_agree pending falls fuel more txid tip asked.0 asked.1 h k
      subscribed (err e) = refl
      subscribed panic = refl
