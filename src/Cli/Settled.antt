-- ===== src/Cli/Settled.antt =====
-- What a command with the stock of cli/src/command.rs leaves in the stock's file.
use mathlib.Core.Path.{subst}
use rgb.Base.{
  ◌≡◌, ◌≢◌, ◌⊎◌, Bool, ltb, refl, ap, sym, ◌∙◌, String, true, false, some, Result, ok, err, panic,
  arith, inl, inr,
}
use rgb.Cli.Args.{rgb_stock, load_stock, loaded_or}
use rgb.Cli.Durable.{dropped-ok}
use rgb.Cli.Env.{Env, stock_files, RgbArgs}
use rgb.Cli.Files.{change_stock}
use rgb.Cli.Io.{World, log, when, print, pure, after, hold}
use rgb.Cli.Reads.{IsClean, IsThere, rgb_stock-OnDisk, rgb_stock-IsClean, drop_clean}
use rgb.Cli.Stash.{StockCmd, with_stock}
use rgb.Store.Disk.{StoreLaws}
use rgb.Store.Stock as StockStore
use rgb.Store.Stock.{StoredStock}
use rgb.Store.Sync.{drop_synced}
use rgb.Wallet.Errors.{WalletError}

module _ (env : Env) (args : RgbArgs) where
  open env use {foreign, Disk, Stock, StockError}

  -- a changed stock, to be written back to the file it came from
  pub record IsChanged (Q : Stock → Type 0) (s : StoredStock String Stock) : Type 0 where
    pub dirty : s.dirty ≡ true
    pub stock_path : s.stock_path ≡ args.base_dir
    pub stock : Q s.stock

  -- the stock is as it was loaded, and so is the disk
  pub record IsFresh (disk : Disk) (stock : Stock) (p : StoredStock String Stock × World Disk)
      : Type 0 where
    pub clean : IsClean env args p.0
    pub same_disk : p.1.disk ≡ disk
    pub same_stock : p.0.stock ≡ stock
    pub same_path : p.0.stock_path ≡ args.base_dir

  -- The stock is as it was loaded, and so is the disk, or the stock was changed to one of a kind.
  abbrev pub IsSettled : Disk → (Stock → Type 0) → StoredStock String Stock × World Disk → Type 0
  IsSettled disk Q p = (IsClean env args p.0 × (p.1.disk ≡ disk)) ⊎ IsChanged Q p.0

  pub fresh-IsSettled :
      (disk : Disk) (stock : Stock) (Q : Stock → Type 0) (p : StoredStock String Stock × World Disk)
      → IsFresh disk stock p
      → IsSettled disk Q p
  fresh-IsSettled disk stock Q p h = inl (h.clean, h.same_disk)

  -- what the disk holds at the end of a command
  abbrev pub EndsWith : Disk → (Stock → Type 0) → Disk → Type 0
  EndsWith disk Q disk' =
      (disk' ≡ disk) ⊎ ((s : Stock) × Q s × ((stock_files env).load args.base_dir disk' ≡ some s))

  loaded_or-loaded :
      (t : Result foreign.Deserialize Stock) (stock : Stock) (w : World Disk)
      → t ≡ ok stock
      → (loaded_or env args args.base_dir t w).1 ≡ ok stock
  loaded_or-loaded (ok s) stock w h = ground arith
  loaded_or-loaded (err e) stock w h = absurd (ground arith)
  loaded_or-loaded panic stock w h = absurd (ground arith)

  pub load_stock-loaded :
      (w : World Disk) (stock : Stock)
      → env.load_stock args.base_dir w.disk ≡ ok stock
      → (load_stock env args args.base_dir w).1 ≡ ok stock
  unfolding load_stock
  load_stock-loaded w stock h = logged (ltb 1 args.verbose)
    where
      logged :
          (b : Bool)
          → (after
              (when b (print {E = WalletError foreign} (log "Loading stock ... ")) w)
              (λ done v.
                loaded_or env args args.base_dir (env.load_stock args.base_dir v.disk) v)).1
            ≡ ok stock
      logged true =
          loaded_or-loaded (env.load_stock args.base_dir w.disk) stock
            (print {E = WalletError foreign} (log "Loading stock ... ") w).0 h
      logged false = loaded_or-loaded (env.load_stock args.base_dir w.disk) stock w h

  -- a change of the stock through `deref_mut`
  pub change-IsChanged :
      {A : Type 0} (disk : Disk) (stock : Stock) (Q : Stock → Type 0)
      (p : StoredStock String Stock × World Disk) (call : Stock → Stock × Result StockError A)
      → IsFresh disk stock p
      → Q (call stock).0
      → IsChanged Q (change_stock env args call p).0.0
  unfolding StockStore.deref_mut
  change-IsChanged disk stock Q p call h q = record {
    dirty = refl;
    stock_path = h.same_path;
    stock = subst (λ x. Q (call x).0) (sym h.same_stock) q;
  }

  pub change-IsSettled :
      {A : Type 0} (disk : Disk) (stock : Stock) (Q : Stock → Type 0)
      (p : StoredStock String Stock × World Disk) (call : Stock → Stock × Result StockError A)
      → IsFresh disk stock p
      → Q (call stock).0
      → IsSettled disk Q (change_stock env args call p).0
  change-IsSettled disk stock Q p call h q = inr (change-IsChanged disk stock Q p call h q)

  rgb_stock-stock :
      (disk : Disk) (r : IsThere env args disk) (w w' : World Disk) (s : StoredStock String Stock)
      → w.disk ≡ disk
      → rgb_stock env args w ≡ (w', ok s)
      → (s.stock ≡ r.stock) × (s.stock_path ≡ args.base_dir)
  unfolding rgb_stock StockStore.attach
  rgb_stock-stock disk r w w' s e h =
      attached (load_stock env args args.base_dir w)
        (load_stock-loaded w r.stock (ap (env.load_stock args.base_dir) e ∙ r.loads)) h
    where
      attached :
          (t : World Disk × Result (WalletError foreign) Stock)
          → t.1 ≡ ok r.stock
          → after t (λ stock. pure (StockStore.attach (stock_files env) args.base_dir stock))
            ≡ (w', ok s)
          → (s.stock ≡ r.stock) × (s.stock_path ≡ args.base_dir)
      attached (v, ok stock) q e = ground arith
      attached (v, err x) q e = absurd (ground arith)
      attached (v, panic) q e = absurd (ground arith)

  -- A changed stock is in its file once the command has dropped it without a panic.
  pub hold_changed :
      {A : Type 0} (Q : Stock → Type 0) (body : StockCmd env args A) (s : StoredStock String Stock)
      (w : World Disk)
      → StoreLaws (stock_files env)
      → IsChanged Q (body (s, w)).0.0
      → (hold (StockStore.drop (stock_files env)) s body w).1 ≢ panic
      → (s' : Stock) × Q s'
        × ((stock_files env).load args.base_dir
              (hold (StockStore.drop (stock_files env)) s body w).0.disk
            ≡ some s')
  hold_changed Q body s w laws changed np =
      let s' = (body (s, w)).0.0 in
      let d = (body (s, w)).0.1.disk in
      let disk' = (StockStore.drop (stock_files env) s' d).0 in
      (
        s'.stock,
        changed.stock,
        subst (λ p. (stock_files env).load p disk' ≡ some s'.stock) changed.stock_path
            (drop_synced (stock_files env) laws s' d (λ e. absurd (ground (arith, changed.dirty)))
              (dropped-ok _ (body (s, w)).1 np)),
      )

  hold_settled :
      {A : Type 0} (disk : Disk) (Q : Stock → Type 0) (body : StockCmd env args A)
      (s : StoredStock String Stock) (w : World Disk)
      → StoreLaws (stock_files env)
      → IsSettled disk Q (body (s, w)).0
      → (hold (StockStore.drop (stock_files env)) s body w).1 ≢ panic
      → EndsWith disk Q (hold (StockStore.drop (stock_files env)) s body w).0.disk
  hold_settled disk Q body s w laws (inl clean) np =
      inl (drop_clean env args (body (s, w)).0.0 clean.0 (body (s, w)).0.1.disk ∙ clean.1)
  hold_settled disk Q body s w laws (inr changed) np = inr (hold_changed Q body s w laws changed np)

  -- A body that settles every stock that is loaded makes a command that ends so, if it does not panic.
  pub with_stock_settled :
      {A : Type 0} (disk : Disk) (Q : Stock → Type 0) (body : StockCmd env args A)
      (r : IsThere env args disk) (w : World Disk)
      → StoreLaws (stock_files env)
      → w.disk ≡ disk
      → ((p : StoredStock String Stock × World Disk)
          → IsFresh disk r.stock p
          → IsSettled disk Q (body p).0)
      → (with_stock env args body w).1 ≢ panic
      → EndsWith disk Q (with_stock env args body w).0.disk
  with_stock_settled disk Q body r w laws h settles = opened (rgb_stock env args w) refl
    where
      opened :
          (t : World Disk × Result (WalletError foreign) (StoredStock String Stock))
          → rgb_stock env args w ≡ t
          → (after t (λ s. hold (StockStore.drop (stock_files env)) s body)).1 ≢ panic
          → EndsWith disk Q (after t (λ s. hold (StockStore.drop (stock_files env)) s body)).0.disk
      opened (v, ok s) e np =
          let (same, path) = rgb_stock-stock disk r w v s h e in
          hold_settled disk Q body s v laws
            (settles (s, v)
              (record {
                clean = rgb_stock-IsClean env args w v s e;
                same_disk = ap (λ t. t.0.disk) (sym e) ∙ rgb_stock-OnDisk env args disk r w h;
                same_stock = same;
                same_path = path;
              }))
            np
      opened (v, err x) e np =
          inl (ap (λ t. t.0.disk) (sym e) ∙ rgb_stock-OnDisk env args disk r w h)
      opened (v, panic) e np = absurd (np refl)
