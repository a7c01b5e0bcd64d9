-- ===== src/Cli/Reads.antt =====
-- The commands of cli/src/command.rs that only read, and the disk.
use rgb.Base.{
  ◌≡◌, refl, ap, sym, ◌∙◌, String, Bool, true, false, Option, Result, ok, err, panic, arith,
  map_err, ltb,
}
use rgb.Cli.Args.{
  chosen, resolver, loaded_or, load_stock, rgb_stock, rgb_wallet, rgb_wallet_from_stock,
  verbose_log,
}
use rgb.Cli.Env.{Env, stock_files, RgbArgs}
use rgb.Cli.Io.{Line, log, World, pure, after, print, hold, when}
use rgb.Cli.Keeps.{Keeps, after-Keeps, bind-Keeps, OnDisk, With, hold-OnDisk}
use rgb.Cli.Stash.{StockCmd, WalletCmd, with_stock, with_wallet}
use rgb.Resolver.Any as Any
use rgb.Store.Stock as StockStore
use rgb.Store.Stock.{StoredStock}
use rgb.Store.Wallet as WalletStore
use rgb.Store.Wallet.{StoredWallet}
use rgb.Wallet.Errors.{WalletError, bp, custom, resolver as resolver_error}

module _ (env : Env) (args : RgbArgs) where
  open env use {foreign, Disk, Stock, Wallet, Config, wallet_api, wallet_files}

  -- the stock is not marked dirty
  abbrev pub IsClean : StoredStock String Stock → Type 0
  IsClean s = s.dirty ≡ false

  abbrev pub IsCleanWallet : StoredWallet String Wallet Stock → Type 0
  IsCleanWallet s = (s.stock_dirty ≡ false) × (s.wallet_dirty ≡ false)

  -- the stock's file is there
  pub record IsThere (disk : Disk) : Type 0 where
    pub stock : Stock
    pub loads : env.load_stock args.base_dir disk ≡ ok stock

  -- so it is, and to start the wallet's runtime does not change the disk
  pub record IsReadable (disk : Disk) : Type 0 where
    pub there : IsThere disk
    pub runtime : (config : Config) (w : World Disk) → (env.bp_runtime config w).0.disk ≡ w.disk

  when-OnDisk :
      (disk : Disk) (b : Bool) (line : Line)
      → Keeps (OnDisk disk) (when b (print {E = WalletError foreign} line))
  when-OnDisk disk true line w h = h
  when-OnDisk disk false line w h = h

  loaded_or-OnDisk :
      (disk : Disk) (r : IsThere disk) (t : Result foreign.Deserialize Stock) (w : World Disk)
      → t ≡ ok r.stock
      → OnDisk disk w
      → OnDisk disk (loaded_or env args args.base_dir t w).0
  loaded_or-OnDisk disk r (ok s) w e h = h
  loaded_or-OnDisk disk r (err x) w e h = absurd (ground arith)
  loaded_or-OnDisk disk r panic w e h = h

  pub load_stock-OnDisk :
      (disk : Disk) → IsThere disk → Keeps (OnDisk disk) (load_stock env args args.base_dir)
  unfolding load_stock
  load_stock-OnDisk disk r =
      bind-Keeps (OnDisk disk) (verbose_log env args "Loading stock ... ") _
        (when-OnDisk disk (ltb 1 args.verbose) (log "Loading stock ... "))
        (λ done w h.
          loaded_or-OnDisk disk r (env.load_stock args.base_dir w.disk) w
            (ap (env.load_stock args.base_dir) h ∙ r.loads) h)

  pub rgb_stock-OnDisk : (disk : Disk) → IsThere disk → Keeps (OnDisk disk) (rgb_stock env args)
  unfolding rgb_stock
  rgb_stock-OnDisk disk r =
      bind-Keeps (OnDisk disk) (load_stock env args args.base_dir) _ (load_stock-OnDisk disk r)
        (λ s w h. h)

  pub rgb_stock-IsClean :
      (w w' : World Disk) (s : StoredStock String Stock)
      → rgb_stock env args w ≡ (w', ok s)
      → IsClean s
  unfolding rgb_stock StockStore.attach
  rgb_stock-IsClean w w' s h = attached (load_stock env args args.base_dir w) h
    where
      attached :
          (t : World Disk × Result (WalletError foreign) Stock)
          → after t (λ stock. pure (StockStore.attach (stock_files env) args.base_dir stock))
            ≡ (w', ok s)
          → IsClean s
      attached (v, ok stock) e = ground arith
      attached (v, err x) e = absurd (ground arith)
      attached (v, panic) e = absurd (ground arith)

  pub drop_clean :
      (y : StoredStock String Stock)
      → IsClean y
      → (d : Disk) → (StockStore.drop (stock_files env) y d).0 ≡ d
  unfolding StockStore.drop StockStore.store
  drop_clean y c d = ground arith

  pub drop_clean_wallet :
      (y : StoredWallet String Wallet Stock)
      → IsCleanWallet y
      → (d : Disk)
      → (WalletStore.drop (stock_files env) wallet_files wallet_api {E = WalletError foreign} y d).0
        ≡ d
  unfolding WalletStore.drop WalletStore.store
  drop_clean_wallet y c d = ground arith

  pub resolver-OnDisk : (disk : env.Disk) → Keeps (OnDisk disk) (resolver env args)
  unfolding resolver
  resolver-OnDisk disk w h =
      after-Keeps (OnDisk disk)
        (w, map_err (chosen env args args.esplora args.electrum) resolver_error) _ h
        (λ r v k.
          after-Keeps (OnDisk disk)
            (v, map_err (Any.check env.client_api env.txid env.not_layer1 r args.network) custom) _
            k (λ done v k. k))

  -- A body that leaves the stock clean and the disk alone makes a command that leaves the disk alone.
  pub with_stock-OnDisk :
      {A : Type 0} (disk : Disk) (body : StockCmd env args A)
      → IsThere disk
      → Keeps (With disk IsClean) body
      → Keeps (OnDisk disk) (with_stock env args body)
  with_stock-OnDisk disk body r keeps w h = opened (rgb_stock env args w) refl
    where
      opened :
          (t : World Disk × Result (WalletError foreign) (StoredStock String Stock))
          → rgb_stock env args w ≡ t
          → OnDisk disk (after t (λ s. hold (StockStore.drop (stock_files env)) s body)).0
      opened (v, ok s) e =
          hold-OnDisk disk IsClean (StockStore.drop (stock_files env)) s body v drop_clean keeps
            (rgb_stock-IsClean w v s e) (ap (λ t. t.0.disk) (sym e) ∙ rgb_stock-OnDisk disk r w h)
      opened (v, err x) e = ap (λ t. t.0.disk) (sym e) ∙ rgb_stock-OnDisk disk r w h
      opened (v, panic) e = ap (λ t. t.0.disk) (sym e) ∙ rgb_stock-OnDisk disk r w h

  pub rgb_wallet_from_stock-OnDisk :
      (disk : Disk) (config : Config) (stock : Stock)
      → IsReadable disk
      → Keeps (OnDisk disk) (rgb_wallet_from_stock env args config stock)
  unfolding rgb_wallet_from_stock
  rgb_wallet_from_stock-OnDisk disk config stock r w h =
      bind-Keeps (OnDisk disk)
        (λ v. ((env.bp_runtime config v).0, map_err (env.bp_runtime config v).1 bp)) _
        (λ v k. r.runtime config v ∙ k) (λ found v k. k) w h

  pub rgb_wallet_from_stock-IsClean :
      (config : Config) (stock : Stock) (w w' : World Disk) (s : StoredWallet String Wallet Stock)
      → rgb_wallet_from_stock env args config stock w ≡ (w', ok s)
      → IsCleanWallet s
  unfolding rgb_wallet_from_stock WalletStore.attach
  rgb_wallet_from_stock-IsClean config stock w w' s h =
      attached (env.bp_runtime config w).0 (env.bp_runtime config w).1 h
    where
      attached :
          (v : World Disk) (t : Result foreign.Runtime (Option String × Wallet))
          → after {S = World Disk} {E = WalletError foreign}
              (v, map_err t bp)
              (λ found. pure (
                WalletStore.attach
                  (stock_files env)
                  wallet_files
                  wallet_api
                  args.base_dir
                  found.0
                  stock
                  found.1))
            ≡ (w', ok s)
          → IsCleanWallet s
      attached v (ok found) e = ground arith
      attached v (err x) e = absurd (ground arith)
      attached v panic e = absurd (ground arith)

  rgb_wallet-OnDisk :
      (disk : Disk) (config : Config)
      → IsReadable disk
      → Keeps (OnDisk disk) (rgb_wallet env args config)
  unfolding rgb_wallet
  rgb_wallet-OnDisk disk config r =
      bind-Keeps (OnDisk disk) (load_stock env args args.base_dir) _
        (load_stock-OnDisk disk r.there) (λ stock. rgb_wallet_from_stock-OnDisk disk config stock r)

  rgb_wallet-IsClean :
      (config : Config) (w w' : World Disk) (s : StoredWallet String Wallet Stock)
      → rgb_wallet env args config w ≡ (w', ok s)
      → IsCleanWallet s
  unfolding rgb_wallet
  rgb_wallet-IsClean config w w' s h = from_stock (load_stock env args args.base_dir w) h
    where
      from_stock :
          (t : World Disk × Result (WalletError foreign) Stock)
          → after t (λ stock. rgb_wallet_from_stock env args config stock) ≡ (w', ok s)
          → IsCleanWallet s
      from_stock (v, ok stock) e = rgb_wallet_from_stock-IsClean config stock v w' s e
      from_stock (v, err x) e = absurd (ground arith)
      from_stock (v, panic) e = absurd (ground arith)

  -- The same for the body of a command with the wallet.
  pub with_wallet-OnDisk :
      {A : Type 0} (disk : Disk) (config : Config) (body : WalletCmd env args A)
      → IsReadable disk
      → Keeps (With disk IsCleanWallet) body
      → Keeps (OnDisk disk) (with_wallet env args config body)
  with_wallet-OnDisk disk config body r keeps w h = opened (rgb_wallet env args config w) refl
    where
      opened :
          (t : World Disk × Result (WalletError foreign) (StoredWallet String Wallet Stock))
          → rgb_wallet env args config w ≡ t
          → OnDisk disk
              (after t (λ s.
                hold
                  (WalletStore.drop
                    (stock_files env)
                    wallet_files
                    wallet_api
                    {E = WalletError foreign})
                  s
                  body)).0
      opened (v, ok s) e =
          hold-OnDisk disk IsCleanWallet
            (WalletStore.drop (stock_files env) wallet_files wallet_api {E = WalletError foreign}) s
            body v drop_clean_wallet keeps (rgb_wallet-IsClean config w v s e)
            (ap (λ t. t.0.disk) (sym e) ∙ rgb_wallet-OnDisk disk config r w h)
      opened (v, err x) e = ap (λ t. t.0.disk) (sym e) ∙ rgb_wallet-OnDisk disk config r w h
      opened (v, panic) e = ap (λ t. t.0.disk) (sym e) ∙ rgb_wallet-OnDisk disk config r w h
