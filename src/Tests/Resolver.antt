-- ===== src/Tests/Resolver.antt =====
-- Resolvers over small clients: an electrum client is the number of headers that wait.
use Prim.Native.Nat.{ℕ}
use text.Mathlib.Text.{◌==◌ as str_eq}
use rgb.Base.{
  suc, zero, ◌≡◌, ◌≢◌, ◌<◌, ◌≤◌, refl, if◌then◌else◌, Option, none, some, List, [], ◌∷◌, Result, ok,
  err, arith, ◌==◌, String, true,
}
use rgb.Chain.{XChain, bitcoin, liquid, XWitnessId, off_chain, on_chain}
use rgb.Resolver.Any.{AnyResolver, add_terminals, resolve_height, resolve_pub_witness}
use rgb.Resolver.Api.{RgbResolver}
use rgb.Resolver.Electrum
use rgb.Resolver.Electrum.{ElectrumApi, count_headers}
use rgb.Resolver.Ends.{resolve_height_ends}
use rgb.Resolver.Locate.{resolve_height_mined}
use rgb.Resolver.Terminals.{resolve-add_terminals, resolve-add_terminals_other}

-- a server that knows no transaction; a transaction is its id
abbrev inner : RgbResolver (Unit {0}) ℕ ℕ
inner = record {
  check = λ s network hash. ok tt;
  resolve_height = λ s id. (s, err "unknown");
  resolve_pub_witness = λ s id. err none;
}

abbrev not_layer1 : XWitnessId → String
not_layer1 id = "not on the bitcoin layer"

abbrev resolver : AnyResolver (Unit {0}) ℕ
resolver = record { inner = tt; terminal_txes = [] }

abbrev witnesses : List (XChain (Option ℕ))
witnesses = bitcoin (some 5) ∷ liquid (some 6) ∷ bitcoin none ∷ []

resolve-add_terminals_example :
    let r' = add_terminals inner (λ tx. tx) not_layer1 resolver witnesses in
    (resolve_height inner (λ tx. tx) not_layer1 r' (bitcoin 5)
      ≡ (r', ok (record { witness_ord = off_chain; witness_id = bitcoin 5 })))
    × (resolve_pub_witness inner (λ tx. tx) not_layer1 r' (bitcoin 5) ≡ ok (bitcoin 5))
    × (◌≡◌ {A = ℕ} 5 5)
resolve-add_terminals_example =
    resolve-add_terminals inner (λ tx. tx) not_layer1 resolver witnesses 5 5 refl

resolve-add_terminals_other_example :
    let r' = add_terminals inner (λ tx. tx) not_layer1 resolver witnesses in
    ((resolve_height inner (λ tx. tx) not_layer1 r' (bitcoin 6)).1
      ≡ (resolve_height inner (λ tx. tx) not_layer1 resolver (bitcoin 6)).1)
    × (resolve_pub_witness inner (λ tx. tx) not_layer1 r' (bitcoin 6)
        ≡ resolve_pub_witness inner (λ tx. tx) not_layer1 resolver (bitcoin 6))
resolve-add_terminals_other_example =
    resolve-add_terminals_other inner (λ tx. tx) not_layer1 resolver witnesses 6 refl

abbrev pop_header : ℕ → ℕ × Result String (Option ℕ)
pop_header zero = (0, ok none)
pop_header (suc n) = (n, ok (some 0))

abbrev merkle : ℕ → ℕ → ℕ → Result String ℕ
merkle c txid n = if n == 100 then ok 100 else err "no such proof"

abbrev field : String → String → Option ℕ
field details name =
    if str_eq name "confirmations"
    then some 4
    else if str_eq name "blocktime"
    then some 77
    else none

-- A transaction at height 100 with four confirmations: the tip was 102, and one more block has come.
abbrev server : ElectrumApi
server = record {
  Client = ℕ;
  Error = String;
  Json = ℕ;
  I64 = ℕ;
  Tx = ℕ;
  Raw = ℕ;
  WitnessPos = ℕ × ℕ;
  to_string = λ e. e;
  invalid_response = λ j. "invalid response";
  show_txid = λ txid. "txid";
  block_hash = λ c n. ok "hash";
  block_headers_subscribe = λ c. (c, ok 102);
  block_headers_pop = pop_header;
  transaction_get_verbose = λ c txid. (c, ok 0);
  get = λ j name. field "" name;
  as_u64 = λ j. some j;
  as_i64 = λ j. some j;
  transaction_get_merkle = merkle;
  transaction_get_raw = λ c txid. ok txid;
  consensus_deserialize = λ raw. ok raw;
  new_pos = λ h t. some (h, t);
}

pops : (c header : ℕ) → (pop_header c).1 ≡ ok (some header) → (pop_header c).0 < c
pops zero header e = absurd (ground arith)
pops (suc n) header e = omega arith

announced : (c3 forward : ℕ) → count_headers server true 2 1 ≡ some (c3, forward) → 1 ≤ forward
unfolding count_headers
announced c3 forward e = ground arith

no_proof : (c n : ℕ) → n ≢ 100 → (e : String) × (merkle c 9 n ≡ err e)
no_proof c n ne = ("no such proof", ground arith)

resolve_height_mined_example :
    (Electrum.resolve_height server true 2 1 9).1
    ≡ ok (record { witness_ord = on_chain (100, 77); witness_id = bitcoin 9 })
resolve_height_mined_example =
    resolve_height_mined server true (λ c. c) pops 2 9 102 1 100 1 1 1 0 4 77 77 (100, 77) refl refl
      (omega arith) announced refl refl refl refl (omega arith) (omega arith) (omega arith)
      (omega arith) (λ c3. refl) no_proof refl

-- two headers wait
resolve_height_ends_example :
    ((d : ℕ) × (n : ℕ) × (count_headers server true 3 2 ≡ some (d, n)))
    × (Electrum.resolve_height server true 3 2 9 ≡ Electrum.resolve_height server true 8 2 9)
resolve_height_ends_example =
    resolve_height_ends server true (λ c. c) pops 3 8 9 2 (omega arith) (omega arith)
