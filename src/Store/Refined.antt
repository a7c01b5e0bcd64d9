-- ===== src/Store/Refined.antt =====
-- What sessions with a `StoredWallet` of src/store.rs amount to without files: a pair of a stock and a
-- wallet that the same calls change.
use mathlib.Core.Path.{subst}
use rgb.Base.{
  ◌≡◌, ◌≢◌, refl, ap, sym, ◌∙◌, Option, some, none, Result, ok, err, panic, arith, List, [], ◌∷◌,
  ◌++◌,
}
use rgb.Store.Disk.{FileStore, StoreLaws, Apart}
use rgb.Store.Session.{Call, call, run, session, session_durable}
use rgb.Store.Wallet
use rgb.Store.Wallet.{WalletApi, StoredWallet}

abbrev and_then : {A B : Type 0} → Option A → (A → Option B) → Option B
and_then none f = none
and_then (some a) f = f a

and_then-some :
    {A B : Type 0} (o : Option A) (f : A → Option B) (b : B)
    → and_then o f ≡ some b
    → (a : A) × (o ≡ some a) × (f a ≡ some b)
and_then-some none f b h = absurd (ground arith)
and_then-some (some a) f b h = (a, refl, h)

-- the lists one after another
unfoldable pub joined {ℓ} : {A : Type ℓ} → List (List A) → List A
joined [] = []
joined (xs ∷ rest) = xs ++ joined rest

module _ {Disk FilePath W S StockErr WalletErr : Type 0}
    (stock_fs : FileStore Disk FilePath S StockErr)
    (wallet_fs : FileStore Disk FilePath W WalletErr) (api : WalletApi W S) where
  -- what a call makes of a stock and a wallet
  unfoldable pub step : S × W → Call stock_fs wallet_fs api → S × W
  step (s, w) (Call.stock_mut body) = ((body s).0, w)
  step (s, w) (Call.wallet_mut body) = (s, (body w).0)
  step (s, w) (Call.pay invoice params) = let (w', s', r) = api.pay w s invoice params in (s', w')
  step (s, w) (Call.construct_psbt invoice params) =
      (s, (api.construct_psbt_rgb w s invoice params).0)
  step (s, w) (Call.transfer invoice psbt) =
      let (w', s', p, r) = api.transfer w s invoice psbt in (s', w')

  unfoldable pub steps : S × W → List (Call stock_fs wallet_fs api) → S × W
  unfolding step
  steps sw [] = sw
  steps sw (c ∷ calls) = steps (step sw c) calls

  abbrev view : StoredWallet FilePath W S → S × W
  view s = (s.stock, s.wallet)

  view-call :
      (s : StoredWallet FilePath W S) (c : Call stock_fs wallet_fs api)
      → view (call stock_fs wallet_fs api s c) ≡ step (view s) c
  unfolding call step Wallet.stock_mut Wallet.wallet_mut Wallet.pay Wallet.construct_psbt
      Wallet.transfer
  view-call s (Call.stock_mut body) = refl
  view-call s (Call.wallet_mut body) = refl
  view-call s (Call.pay invoice params) = refl
  view-call s (Call.construct_psbt invoice params) = refl
  view-call s (Call.transfer invoice psbt) = refl

  view-run :
      (s : StoredWallet FilePath W S) (calls : List (Call stock_fs wallet_fs api))
      → view (run stock_fs wallet_fs api s calls) ≡ steps (view s) calls
  unfolding run steps
  view-run s [] = refl
  view-run s (c ∷ calls) =
      view-run (call stock_fs wallet_fs api s c) calls ∙ ap (λ v. steps v calls) (view-call s c)

  steps-append :
      (sw : S × W) (xs ys : List (Call stock_fs wallet_fs api))
      → steps sw (xs ++ ys) ≡ steps (steps sw xs) ys
  unfolding steps
  steps-append sw [] ys = refl
  steps-append sw (x ∷ xs) ys = steps-append (step sw x) xs ys

  module _ (E : Type 0) (stock_path path : FilePath) where
    abbrev close : List (Call stock_fs wallet_fs api) → S → W → Disk → Disk × Result E (Unit {0})
    close calls stock wallet disk =
        Wallet.drop stock_fs wallet_fs api {E = E}
          (session stock_fs wallet_fs api stock_path path stock wallet calls) disk

    abbrev closed : Disk × Result E (Unit {0}) → Option Disk
    closed (disk, ok _) = some disk
    closed (disk, err e) = none
    closed (disk, panic) = none

    closed-some :
        (t : Disk × Result E (Unit {0})) (disk : Disk)
        → closed t ≡ some disk
        → (t.0 ≡ disk) × (t.1 ≡ ok tt)
    closed-some (d, ok tt) disk h = (ground arith, refl)
    closed-some (d, err e) disk h = absurd (ground arith)
    closed-some (d, panic) disk h = absurd (ground arith)

    -- One session: both files are loaded, the calls are made and the stored wallet is dropped. `none`
    -- if a file does not load or the drop panics.
    unfoldable pub one_session : List (Call stock_fs wallet_fs api) → Disk → Option Disk
    one_session calls disk = and_then (stock_fs.load stock_path disk) (λ stock.
        and_then (wallet_fs.load path disk) (λ wallet. closed (close calls stock wallet disk)))

    -- sessions one after another
    unfoldable pub sessions : List (List (Call stock_fs wallet_fs api)) → Disk → Option Disk
    unfolding one_session
    sessions [] disk = some disk
    sessions (calls ∷ rest) disk = and_then (one_session calls disk) (sessions rest)

    -- the two files hold a stock and a wallet
    abbrev Holds : Disk → S × W → Type 0
    Holds disk sw =
        (stock_fs.load stock_path disk ≡ some sw.0) × (wallet_fs.load path disk ≡ some sw.1)

    one_session-Holds :
        StoreLaws stock_fs
        → StoreLaws wallet_fs
        → Apart stock_fs wallet_fs
        → Apart wallet_fs stock_fs
        → stock_path ≢ path
        → (calls : List (Call stock_fs wallet_fs api)) (disk disk' : Disk) (sw : S × W)
        → Holds disk sw
        → one_session calls disk ≡ some disk'
        → Holds disk' (steps sw calls)
    unfolding one_session Wallet.attach
    one_session-Holds sl wl sa wa ne calls disk disk' sw h e =
        let (stock, hs, e1) = and_then-some (stock_fs.load stock_path disk) _ disk' e in
        let (wallet, hw, e2) = and_then-some (wallet_fs.load path disk) _ disk' e1 in
        let (same, fine) = closed-some (close calls stock wallet disk) disk' e2 in
        let (ls, lw) =
          session_durable stock_fs wallet_fs api {E = E} sl wl sa wa stock_path path stock wallet
            disk calls ne hs hw fine in
        let same_sw : (stock, wallet) ≡ sw =
          (let hs2 = sym hs ∙ h.0 in let hw2 = sym hw ∙ h.1 in ground (arith, hs2, hw2)) in
        let seen =
          view-run (Wallet.attach stock_fs wallet_fs api stock_path (some path) stock wallet) calls
          ∙ ap (λ v. steps v calls) same_sw in
        (
          ap (stock_fs.load stock_path) (sym same) ∙ (ls ∙ ap (λ v. some v.0) seen),
          ap (wallet_fs.load path) (sym same) ∙ (lw ∙ ap (λ v. some v.1) seen),
        )

    -- Sessions refine the pair of the stock and the wallet: if the files hold one and no session
    -- fails to load or panics as it is dropped, the files hold at the end what all calls of all
    -- sessions in order make of it. The files have different paths and keep what was stored.
    pub sessions-Holds :
        StoreLaws stock_fs
        → StoreLaws wallet_fs
        → Apart stock_fs wallet_fs
        → Apart wallet_fs stock_fs
        → stock_path ≢ path
        → (all : List (List (Call stock_fs wallet_fs api))) (disk disk' : Disk) (sw : S × W)
        → Holds disk sw
        → sessions all disk ≡ some disk'
        → Holds disk' (steps sw (joined all))
    unfolding sessions joined steps
    sessions-Holds sl wl sa wa ne [] disk disk' sw h e = subst (λ d. Holds d sw) (ground arith) h
    sessions-Holds sl wl sa wa ne (calls ∷ rest) disk disk' sw h e =
        let (d, first, later) = and_then-some (one_session calls disk) (sessions rest) disk' e in
        subst (Holds disk') (sym (steps-append sw calls (joined rest))) (
          sessions-Holds sl wl sa wa ne rest d disk' (steps sw calls)
            (one_session-Holds sl wl sa wa ne calls disk d sw h first) later)
