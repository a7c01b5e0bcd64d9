-- ===== src/Tests/Store.antt =====
-- A disk with a number under each path; a path is a number, and every store succeeds.
use rgb.Base.{ℕ, ◌≡◌, ◌≢◌, refl, ◌+◌, String, some, List, [], ◌∷◌, ok, err, arith}
use rgb.Base.Key.{nat_key}
use rgb.Base.Map.{lookup, insert, lookup-insert}
use rgb.Store.Disk.{FileStore, StoreLaws, Apart}
use rgb.Store.Refined.{joined, step, steps, one_session, sessions, sessions-Holds}
use rgb.Store.Session.{Call, run, call, session, session_durable}
use rgb.Store.Stock
use rgb.Store.Sync.{borrow_all, stock_durable}
use rgb.Store.Wallet
use rgb.Store.Wallet.{WalletApi}

abbrev Disk : Type 0
Disk = List (ℕ × ℕ)

abbrev fs : FileStore Disk ℕ ℕ (Unit {0})
fs = record { store = λ v p d. (insert p v d, ok tt); load = λ p d. lookup p d }

stored : (v p : ℕ) (d : Disk) → (fs.store v p d).1 ≡ ok tt → fs.load p (fs.store v p d).0 ≡ some v
stored v p d e = ground (arith, lookup-insert p p v d)

stored_ne : (v p q : ℕ) (d : Disk) → p ≢ q → fs.load q (fs.store v p d).0 ≡ fs.load q d
stored_ne v p q d ne = ground (arith, lookup-insert p q v d)

abbrev fs_laws : StoreLaws fs
fs_laws = record { load-store = stored }

abbrev fs_apart : Apart fs fs
fs_apart = record { load-store_ne = stored_ne }

abbrev both_files : Disk
both_files = (0, 10) ∷ (1, 20) ∷ []

abbrev add_three : ℕ → ℕ × Unit {0}
add_three s = (s + 3, tt)

stock_durable_example :
    let s = borrow_all fs (Stock.attach fs 0 10) (add_three ∷ add_three ∷ []) in
    fs.load 0 (Stock.drop fs s both_files).0 ≡ some 16
unfolding borrow_all Stock.attach Stock.deref_mut Stock.drop Stock.store
stock_durable_example =
    stock_durable fs fs_laws 0 10 both_files (add_three ∷ add_three ∷ []) refl refl

-- A payment adds its parameter to the wallet and to the stock, and fails at zero.
abbrev payments : WalletApi ℕ ℕ
payments = record {
  RgbInvoice = ℕ;
  TransferParams = ℕ;
  Psbt = ℕ;
  PsbtMeta = Unit {0};
  Transfer = Unit {0};
  ContractId = ℕ;
  IfaceRef = String;
  History = ℕ;
  PayError = String;
  CompositionError = String;
  CompletionError = String;
  WalletError = String;
  pay = λ w s i p. (w + p, s + p, err "no funds");
  construct_psbt_rgb = λ w s i p. (w + 1, ok (p, tt));
  transfer = λ w s i p. (w + p, s + 1, p, ok tt);
  fungible_history = λ s w c i. ok s;
}

abbrev calls : List (Call fs fs payments)
calls = Call.pay 0 4 ∷ Call.stock_mut add_three ∷ Call.transfer 0 5 ∷ []

session_durable_example :
    let s = session fs fs payments 0 1 10 20 calls in
    let disk' = (Wallet.drop fs fs payments {E = Unit {0}} s both_files).0 in
    (fs.load 0 disk' ≡ some s.stock) × (fs.load 1 disk' ≡ some s.wallet)
unfolding run call Wallet.attach Wallet.pay Wallet.stock_mut Wallet.transfer Wallet.drop
    Wallet.store
session_durable_example =
    session_durable fs fs payments {E = Unit {0}} fs_laws fs_laws fs_apart fs_apart 0 1 10 20
      both_files calls (λ e. omega (arith, e)) refl refl refl

-- two sessions
abbrev two_sessions : List (List (Call fs fs payments))
two_sessions = calls ∷ (Call.wallet_mut add_three ∷ []) ∷ []

abbrev end_files : Disk
end_files = (0, 18) ∷ (1, 32) ∷ []

sessions-Holds_example :
    (fs.load 0 end_files ≡ some (steps fs fs payments (10, 20) (joined two_sessions)).0)
    × (fs.load 1 end_files ≡ some (steps fs fs payments (10, 20) (joined two_sessions)).1)
unfolding sessions one_session joined steps step run call Wallet.attach Wallet.pay Wallet.stock_mut
    Wallet.wallet_mut Wallet.transfer Wallet.drop Wallet.store
sessions-Holds_example =
    sessions-Holds fs fs payments (Unit {0}) 0 1 fs_laws fs_laws fs_apart fs_apart
      (λ e. omega (arith, e)) two_sessions both_files end_files (10, 20) (refl, refl) refl
