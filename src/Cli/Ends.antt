-- ===== src/Cli/Ends.antt =====
-- A command of cli/src/command.rs that works on the stock and does all of its work or fails.
use rgb.Base.{
  ◌≡◌, ◌≢◌, ◌⊎◌, inl, inr, refl, ◌∙◌, String, true, false, some, arith, Result, ok, err, panic,
  is_ok,
}
use rgb.Cli.Args.{rgb_stock, load_stock}
use rgb.Cli.Completes.{after-return}
use rgb.Cli.Env.{Env, stock_files, RgbArgs}
use rgb.Cli.Io.{World, Line, say, pure, after, hold, dropped}
use rgb.Cli.Reads.{IsClean, IsThere, load_stock-OnDisk, drop_clean}
use rgb.Cli.Settled.{IsFresh, IsChanged, load_stock-loaded, hold_changed}
use rgb.Cli.Stash.{StockCmd, with_stock}
use rgb.Store.Disk.{StoreLaws}
use rgb.Store.Stock as StockStore
use rgb.Store.Stock.{StoredStock}
use rgb.Wallet.Errors.{WalletError}

dropped-fails :
    {E E' A : Type 0} (end : Result E' (Unit {0})) (r : Result E A)
    → is_ok r ≡ false
    → is_ok (dropped end r) ≡ false
dropped-fails (ok done) r h = h
dropped-fails (err e) r h = refl
dropped-fails panic r h = refl

module _ (env : Env) (args : RgbArgs) where
  open env use {foreign, Disk, Stock}

  -- a command that has changed the stock to one of a kind, or that has left all as it was and
  -- failed, since there is no stock of that kind
  abbrev pub Ends :
      Disk
      → (Stock → Type 0)
      → (StoredStock String Stock × World Disk) × Result (WalletError foreign) (Unit {0})
      → Type 0
  Ends disk Q (p, r) =
      (IsClean env args p.0 × (p.1.disk ≡ disk) × (is_ok r ≡ false) × ((s : Stock) → ¬ Q s))
      ⊎ IsChanged env args Q p.0

  pub after-Ends :
      {A : Type 0} (disk : Disk) (stock : Stock) (Q : Stock → Type 0)
      (p : (StoredStock String Stock × World Disk) × Result (WalletError foreign) A)
      (next : A → StockCmd env args (Unit {0}))
      → IsFresh env args disk stock p.0
      → ((x : Stock) → Q x → is_ok p.1 ≡ true)
      → ((a : A) → p.1 ≡ ok a → Ends disk Q (next a p.0))
      → Ends disk Q (after p next)
  after-Ends disk stock Q (s, ok a) next h needs k = k a refl
  after-Ends disk stock Q (s, err e) next h needs k =
      inl (h.clean, h.same_disk, refl, λ x q. absurd (ground (arith, needs x q)))
  after-Ends disk stock Q (s, panic) next h needs k =
      inl (h.clean, h.same_disk, refl, λ x q. absurd (ground (arith, needs x q)))

  pub said-Ends :
      (disk : Disk) (Q : Stock → Type 0) (line : Line)
      (p : (StoredStock String Stock × World Disk) × Result (WalletError foreign) (Unit {0}))
      → IsChanged env args Q p.0.0
      → Ends disk Q (after p (λ done. say line))
  said-Ends disk Q line (s, ok a) h = inr h
  said-Ends disk Q line (s, err e) h = inr h
  said-Ends disk Q line (s, panic) h = inr h

  -- The stock's file holds a stock of a kind, or there is none of that kind, the command has failed
  -- and the disk is as it was.
  abbrev pub Completes : {E A : Type 0} → Disk → (Stock → Type 0) → Disk → Result E A → Type 0
  Completes disk Q disk' r =
      ((s : Stock) × Q s × ((stock_files env).load args.base_dir disk' ≡ some s))
      ⊎ ((disk' ≡ disk) × (is_ok r ≡ false) × ((s : Stock) → ¬ Q s))

  hold-Ends :
      (disk : Disk) (Q : Stock → Type 0) (body : StockCmd env args (Unit {0}))
      (s : StoredStock String Stock) (w : World Disk)
      → StoreLaws (stock_files env)
      → Ends disk Q (body (s, w))
      → let (w', r) = hold (StockStore.drop (stock_files env)) s body w in
        r ≢ panic → Completes disk Q w'.disk r
  hold-Ends disk Q body s w laws (inl (clean, same, fails, none_of)) np =
      let end = StockStore.drop (stock_files env) (body (s, w)).0.0 (body (s, w)).0.1.disk in
      inr (
        drop_clean env args (body (s, w)).0.0 clean (body (s, w)).0.1.disk ∙ same,
        dropped-fails end.1 (body (s, w)).1 fails,
        none_of,
      )
  hold-Ends disk Q body s w laws (inr changed) np =
      inl (hold_changed env args Q body s w laws changed np)

  -- a body that ends so on the stock that is loaded makes a command that does
  pub with_stock-Completes :
      (Q : Stock → Type 0) (body : StockCmd env args (Unit {0})) (w : World Disk)
      (there : IsThere env args w.disk)
      → StoreLaws (stock_files env)
      → ((p : StoredStock String Stock × World Disk)
          → IsFresh env args w.disk there.stock p
          → Ends w.disk Q (body p))
      → (with_stock env args body w).1 ≢ panic
      → Completes w.disk Q (with_stock env args body w).0.disk (with_stock env args body w).1
  unfolding rgb_stock StockStore.attach
  with_stock-Completes Q body w there laws ends =
      let v = (load_stock env args args.base_dir w).0 in
      let s = StockStore.attach (stock_files env) args.base_dir there.stock in
      let opened : rgb_stock env args w ≡ (v, ok s) =
        after-return (load_stock env args args.base_dir w)
          (λ stock. pure (StockStore.attach (stock_files env) args.base_dir stock)) there.stock
          (load_stock-loaded env args w there.stock there.loads) in
      rw (opened) (
        hold-Ends w.disk Q body s v laws (
          ends (s, v)
            (record {
              clean = refl;
              same_disk = load_stock-OnDisk env args w.disk there w refl;
              same_stock = refl;
              same_path = refl;
            })))
