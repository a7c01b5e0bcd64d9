-- ===== src/Cli/Durable.antt =====
-- The files after a command of cli/src/command.rs that changes the stock and the wallet.
use mathlib.Core.Path.{subst}
use rgb.Base.{◌≡◌, ◌≢◌, refl, sym, String, true, some, Result, ok, err, panic, arith}
use rgb.Cli.Args.{rgb_wallet}
use rgb.Cli.Env.{Env, stock_files, RgbArgs}
use rgb.Cli.Io.{World, after, hold, dropped}
use rgb.Cli.Stash.{WalletCmd, with_wallet}
use rgb.Store.Disk.{StoreLaws, Apart}
use rgb.Store.Session.{IsSynced, store_synced, stored_stock}
use rgb.Store.Wallet as WalletStore
use rgb.Store.Wallet.{StoredWallet}
use rgb.Wallet.Errors.{WalletError}

pub dropped-ok :
    {E E' A : Type 0} (end : Result E' (Unit {0})) (r : Result E A)
    → dropped end r ≢ panic
    → end ≡ ok tt
dropped-ok (ok tt) r h = refl
dropped-ok (err e) r h = absurd (h refl)
dropped-ok panic r h = absurd (h refl)

module _ (env : Env) where
  -- what the files of the stock and of the wallet keep
  pub record FileLaws : Type 0 where
    pub stock : StoreLaws (stock_files env)
    pub wallet : StoreLaws env.wallet_files
    pub stock_apart : Apart (stock_files env) env.wallet_files
    pub wallet_apart : Apart env.wallet_files (stock_files env)

module _ (env : Env) (args : RgbArgs) where
  open env use {foreign, Disk, Stock, Wallet, Config, wallet_api, wallet_files}

  -- the files of a stored wallet hold what it holds
  abbrev pub AreStored : StoredWallet String Wallet Stock → String → Disk → Type 0
  AreStored s path disk =
      ((stock_files env).load s.stock_path disk ≡ some s.stock)
      × (wallet_files.load path disk ≡ some s.wallet)

  pub record IsDirty (path : String) (s : StoredWallet String Wallet Stock) : Type 0 where
    pub stock_dirty : s.stock_dirty ≡ true
    pub wallet_dirty : s.wallet_dirty ≡ true
    pub wallet_path : s.wallet_path ≡ some path
    pub apart : s.stock_path ≢ path

  dirty-IsSynced :
      (path : String) (s : StoredWallet String Wallet Stock)
      → IsDirty path s
      → (disk : Disk) → IsSynced (stock_files env) wallet_files wallet_api s disk
  dirty-IsSynced path s d disk = record {
    stock = λ e. absurd (ground (arith, d.stock_dirty));
    wallet = λ p q e. absurd (ground (arith, d.wallet_dirty));
  }

  abbrev drop_wallet :
      StoredWallet String Wallet Stock → Disk → Disk × Result (WalletError foreign) (Unit {0})
  drop_wallet = WalletStore.drop (stock_files env) wallet_files wallet_api {E = WalletError foreign}

  -- what holds after the drop that ends a command with the wallet, if the command does not panic
  with_wallet_ends :
      {A : Type 0} (config : Config) (P : Disk → Type 0) (s : StoredWallet String Wallet Stock)
      (w w1 : World Disk) (body : WalletCmd env args A)
      → rgb_wallet env args config w ≡ (w1, ok s)
      → let p = body (s, w1) in
        ((drop_wallet p.0.0 p.0.1.disk).1 ≡ ok tt → P (drop_wallet p.0.0 p.0.1.disk).0)
        → (with_wallet env args config body w).1 ≢ panic
        → P (with_wallet env args config body w).0.disk
  with_wallet_ends config P s w w1 body opened ends =
      let p = body (s, w1) in
      subst
        (λ t.
          (after t (λ s. hold drop_wallet s body)).1 ≢ panic
          → P (after t (λ s. hold drop_wallet s body)).0.disk)
        (sym opened) (λ np. ends (dropped-ok (drop_wallet p.0.0 p.0.1.disk).1 p.1 np))

  -- the files after a command with the wallet, of which both parts were changed
  pub with_wallet_durable :
      {A : Type 0} (config : Config) (path : String) (s s' : StoredWallet String Wallet Stock)
      (w w1 : World Disk) (body : WalletCmd env args A)
      → FileLaws env
      → rgb_wallet env args config w ≡ (w1, ok s)
      → (body (s, w1)).0.0 ≡ s'
      → IsDirty path s'
      → (with_wallet env args config body w).1 ≢ panic
      → AreStored s' path (with_wallet env args config body w).0.disk
  with_wallet_durable config path s s' w w1 body laws opened e dirty =
      with_wallet_ends config (AreStored s' path) s w w1 body opened (λ fine.
        let p = body (s, w1) in
        let d = subst (IsDirty path) (sym e) dirty in
        subst (λ x. AreStored x path (drop_wallet p.0.0 p.0.1.disk).0) e
          (store_synced (stock_files env) wallet_files wallet_api laws.stock laws.wallet
            laws.stock_apart laws.wallet_apart p.0.0 p.0.1.disk path d.wallet_path d.apart
            (dirty-IsSynced path p.0.0 d p.0.1.disk) fine))

  -- a stored wallet of which the stock was changed
  pub record IsStockDirty (s : StoredWallet String Wallet Stock) : Type 0 where
    pub stock_dirty : s.stock_dirty ≡ true
    pub apart : (path : String) → s.wallet_path ≡ some path → path ≢ s.stock_path

  -- the stock's file after a command with the wallet, of which the stock was changed
  pub with_wallet_stock_durable :
      {A : Type 0} (config : Config) (s s' : StoredWallet String Wallet Stock) (w w1 : World Disk)
      (body : WalletCmd env args A)
      → FileLaws env
      → rgb_wallet env args config w ≡ (w1, ok s)
      → (body (s, w1)).0.0 ≡ s'
      → IsStockDirty s'
      → (with_wallet env args config body w).1 ≢ panic
      → (stock_files env).load s'.stock_path (with_wallet env args config body w).0.disk
        ≡ some s'.stock
  with_wallet_stock_durable config s s' w w1 body laws opened e dirty =
      with_wallet_ends config (λ d. (stock_files env).load s'.stock_path d ≡ some s'.stock) s w w1
        body opened
        (λ fine.
          let p = body (s, w1) in
          let d = subst IsStockDirty (sym e) dirty in
          subst
            (λ x.
              (stock_files env).load x.stock_path (drop_wallet p.0.0 p.0.1.disk).0 ≡ some x.stock)
            e
            (stored_stock (stock_files env) wallet_files wallet_api laws.stock laws.wallet_apart
              p.0.0 p.0.1.disk d.stock_dirty d.apart fine))
