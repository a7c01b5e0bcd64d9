-- ===== src/Store/Session.antt =====
-- Sessions with a `StoredWallet` of src/store.rs: any calls, then the drop that writes both files.
use mathlib.Core.Path.{subst}
use rgb.Base.{◌≡◌, ◌≢◌, refl, sym, ◌∙◌, true, false, Option, none, some, ok, arith, List, [], ◌∷◌}
use rgb.Store.Disk.{FileStore, StoreLaws, Apart}
use rgb.Store.Wallet
use rgb.Store.Wallet.{WalletApi, StoredWallet}

module _ {Disk FilePath W S StockErr WalletErr : Type 0}
    (stock_fs : FileStore Disk FilePath S StockErr)
    (wallet_fs : FileStore Disk FilePath W WalletErr) (api : WalletApi W S) where
  -- The calls that change a stored wallet. A borrow is what the caller does through it.
  pub data Call : Type 1 where
    stock_mut : (S → S × Unit {0}) → Call
    wallet_mut : (W → W × Unit {0}) → Call
    pay : api.RgbInvoice → api.TransferParams → Call
    construct_psbt : api.RgbInvoice → api.TransferParams → Call
    transfer : api.RgbInvoice → api.Psbt → Call

  abbrev Stored : Type 0
  Stored = StoredWallet FilePath W S

  unfoldable pub call : Stored → Call → Stored
  call s (stock_mut body) = (Wallet.stock_mut stock_fs wallet_fs api s body).0
  call s (wallet_mut body) = (Wallet.wallet_mut stock_fs wallet_fs api s body).0
  call s (pay invoice params) = (Wallet.pay stock_fs wallet_fs api s invoice params).0
  call s (construct_psbt invoice params) =
      (Wallet.construct_psbt stock_fs wallet_fs api s invoice params).0
  call s (transfer invoice psbt) = (Wallet.transfer stock_fs wallet_fs api s invoice psbt).0

  unfoldable pub run : Stored → List Call → Stored
  run s [] = s
  run s (c ∷ calls) = run (call s c) calls

  -- the calls on a stored wallet with both its files
  abbrev pub session : FilePath → FilePath → S → W → List Call → Stored
  session stock_path path stock wallet calls =
      run (Wallet.attach stock_fs wallet_fs api stock_path (some path) stock wallet) calls

  -- a part that is not marked dirty equals its file
  pub record IsSynced (s : Stored) (disk : Disk) : Type 0 where
    pub stock : s.stock_dirty ≡ false → stock_fs.load s.stock_path disk ≡ some s.stock
    pub wallet :
        (p : FilePath)
        → s.wallet_path ≡ some p
        → s.wallet_dirty ≡ false
        → wallet_fs.load p disk ≡ some s.wallet

  call-IsSynced :
      (s : Stored) (disk : Disk) (c : Call)
      → IsSynced s disk
      → IsSynced (call s c) disk
        × ((call s c).stock_path ≡ s.stock_path)
        × ((call s c).wallet_path ≡ s.wallet_path)
  unfolding call Wallet.stock_mut Wallet.wallet_mut Wallet.pay Wallet.construct_psbt Wallet.transfer
  call-IsSynced s disk (stock_mut body) h =
      (record { stock = λ e. cc; wallet = h.wallet }, refl, refl)
  call-IsSynced s disk (wallet_mut body) h =
      (record { stock = h.stock; wallet = λ p q e. cc }, refl, refl)
  call-IsSynced s disk (pay invoice params) h =
      (record { stock = λ e. cc; wallet = λ p q e. cc }, refl, refl)
  call-IsSynced s disk (construct_psbt invoice params) h =
      (record { stock = h.stock; wallet = λ p q e. cc }, refl, refl)
  call-IsSynced s disk (transfer invoice psbt) h =
      (record { stock = λ e. cc; wallet = λ p q e. cc }, refl, refl)

  run-IsSynced :
      (s : Stored) (disk : Disk) (calls : List Call)
      → IsSynced s disk
      → IsSynced (run s calls) disk
        × ((run s calls).stock_path ≡ s.stock_path)
        × ((run s calls).wallet_path ≡ s.wallet_path)
  unfolding run
  run-IsSynced s disk [] h = (h, refl, refl)
  run-IsSynced s disk (c ∷ calls) h =
      let (h1, sp, wp) = call-IsSynced s disk c h in
      let (h2, sp', wp') = run-IsSynced (call s c) disk calls h1 in (h2, sp' ∙ sp, wp' ∙ wp)

  pub store_synced :
      {E : Type 0}
      → StoreLaws stock_fs
      → StoreLaws wallet_fs
      → Apart stock_fs wallet_fs
      → Apart wallet_fs stock_fs
      → (s : Stored) (disk : Disk) (path : FilePath) → s.wallet_path ≡ some path
      → s.stock_path ≢ path
      → IsSynced s disk
      → (Wallet.drop stock_fs wallet_fs api {E = E} s disk).1 ≡ ok tt
      → let disk' = (Wallet.drop stock_fs wallet_fs api {E = E} s disk).0 in
        (stock_fs.load s.stock_path disk' ≡ some s.stock)
        × (wallet_fs.load path disk' ≡ some s.wallet)
  unfolding Wallet.drop Wallet.store
  store_synced sl wl sw ws s disk path wp ne h e =
      let disk1 = (stock_fs.store s.stock s.stock_path disk).0 in
      let ne' : path ≢ s.stock_path = λ p. ne (sym p) in
      ground (
        arith,
        h.wallet path wp,
        sl.load-store s.stock s.stock_path disk,
        sw.load-store_ne s.stock s.stock_path path disk ne,
        wl.load-store s.wallet path disk,
        wl.load-store s.wallet path disk1,
        ws.load-store_ne s.wallet path s.stock_path disk ne',
        ws.load-store_ne s.wallet path s.stock_path disk1 ne',
      )

  -- the stock's part of a drop
  pub stored_stock :
      {E : Type 0}
      → StoreLaws stock_fs
      → Apart wallet_fs stock_fs
      → (s : Stored) (disk : Disk) → s.stock_dirty ≡ true
      → ((path : FilePath) → s.wallet_path ≡ some path → path ≢ s.stock_path)
      → (Wallet.drop stock_fs wallet_fs api {E = E} s disk).1 ≡ ok tt
      → stock_fs.load s.stock_path (Wallet.drop stock_fs wallet_fs api {E = E} s disk).0
        ≡ some s.stock
  unfolding Wallet.drop Wallet.store
  stored_stock {E} sl ws s disk dirty ne e = at_path s.wallet_path refl
    where
      at_path :
          (o : Option FilePath)
          → s.wallet_path ≡ o
          → stock_fs.load s.stock_path (Wallet.drop stock_fs wallet_fs api {E = E} s disk).0
            ≡ some s.stock
      at_path (some path) wp =
          let disk1 = (stock_fs.store s.stock s.stock_path disk).0 in
          ground (
            arith,
            sl.load-store s.stock s.stock_path disk,
            ws.load-store_ne s.wallet path s.stock_path disk1 (ne path wp),
          )
      at_path none wp = ground (arith, sl.load-store s.stock s.stock_path disk)

  -- Whatever is called on a stored wallet after it was attached to the files that it was loaded
  -- from, and whether the calls succeed or fail, its drop leaves both files with the stock and the
  -- wallet as the last call left them, unless the drop panics. The files have different paths.
  pub session_durable :
      {E : Type 0}
      → StoreLaws stock_fs
      → StoreLaws wallet_fs
      → Apart stock_fs wallet_fs
      → Apart wallet_fs stock_fs
      → (stock_path path : FilePath) (stock : S) (wallet : W) (disk : Disk) (calls : List Call)
      → stock_path ≢ path
      → stock_fs.load stock_path disk ≡ some stock
      → wallet_fs.load path disk ≡ some wallet
      → (Wallet.drop stock_fs wallet_fs api {E = E}
          (session stock_path path stock wallet calls)
          disk).1
        ≡ ok tt
      → let s = session stock_path path stock wallet calls in
        let disk' = (Wallet.drop stock_fs wallet_fs api {E = E} s disk).0 in
        (stock_fs.load stock_path disk' ≡ some s.stock)
        × (wallet_fs.load path disk' ≡ some s.wallet)
  unfolding Wallet.attach
  session_durable {E} sl wl sw ws stock_path path stock wallet disk calls ne hs hw e =
      let s0 = Wallet.attach stock_fs wallet_fs api stock_path (some path) stock wallet in
      let synced0 : IsSynced s0 disk = record { stock = λ _. hs; wallet = λ p q _. ground arith } in
      let (synced, sp, wp) = run-IsSynced s0 disk calls synced0 in
      let s = run s0 calls in
      let disk' = (Wallet.drop stock_fs wallet_fs api {E = E} s disk).0 in
      let both = store_synced {E = E} sl wl sw ws s disk path wp (λ q. ne (sym sp ∙ q)) synced e in
      (subst (λ p. stock_fs.load p disk' ≡ some s.stock) sp both.0, both.1)
