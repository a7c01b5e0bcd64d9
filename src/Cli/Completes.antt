-- ===== src/Cli/Completes.antt =====
-- An `accept` of cli/src/command.rs that succeeds, and the resolver of cli/src/args.rs.
use rgb.Base.{◌≡◌, refl, ap, ◌∙◌, ◌↔◌, String, Bool, true, some, Result, ok, err, panic, arith}
use rgb.Cli.Connected.{IsConnected, resolver-IsConnected}
use rgb.Cli.Args.{rgb_stock, load_stock, resolver}
use rgb.Cli.Env.{Env, stock_files, RgbArgs}
use rgb.Cli.Files.{FileApi, with_terminals, accept_with, run_accept}
use rgb.Cli.Io.{World, Io, log, print, pure, after, hold}
use rgb.Cli.Reads.{IsThere, load_stock-OnDisk}
use rgb.Cli.Settled.{load_stock-loaded}
use rgb.Cli.Stash.{StockCmd}
use rgb.Resolver.Any.{AnyResolver}
use rgb.Store.Disk.{StoreLaws}
use rgb.Store.Stock as StockStore
use rgb.Store.Stock.{StoredStock}
use rgb.Wallet.Errors.{WalletError}

pub after-return :
    {S E A B : Type 0} (p : S × Result E A) (next : A → Io S E B) (a : A)
    → p.1 ≡ ok a
    → after p next ≡ next a p.0
after-return (s, ok b) next a h = ap (λ x. next x s) (ground arith)
after-return (s, err e) next a h = absurd (ground arith)
after-return (s, panic) next a h = absurd (ground arith)

module _ (env : Env) (args : RgbArgs) where
  open env use {foreign, Disk, Stock, Client, Tx, is_testnet}

  connected-resolver :
      (w : World Disk) (r : AnyResolver Client Tx)
      → IsConnected env args r
      → resolver env args w ≡ (w, ok r)
  unfolding resolver
  connected-resolver w r c = rw (c.chosen, c.check) refl

  pub resolver_iff :
      (w : World Disk) (r : AnyResolver Client Tx)
      → (resolver env args w).1 ≡ ok r ↔ IsConnected env args r
  resolver_iff w r =
      (resolver-IsConnected env args w r, λ c. ap (λ t. t.1) (connected-resolver w r c))

  hold_completes :
      {A : Type 0} (body : StockCmd env args A) (s : StoredStock String Stock) (w v : World Disk)
      (stock : Stock) (a : A)
      → StoreLaws (stock_files env)
      → body (s, w) ≡ ((record s { stock = stock; dirty = true }, v), ok a)
      → (env.store_stock stock s.stock_path v.disk).1 ≡ ok tt
      → ((hold (StockStore.drop (stock_files env)) s body w).1 ≡ ok a)
        × ((stock_files env).load s.stock_path
              (hold (StockStore.drop (stock_files env)) s body w).0.disk
            ≡ some stock)
  unfolding StockStore.drop StockStore.store
  hold_completes body s w v stock a laws e stores =
      rw (e) (rw (stores) refl, laws.load-store stock s.stock_path v.disk stores)

  module _ (api : FileApi env) where
    accept_with-runs :
        (file : String) (s : StoredStock String Stock) (w : World Disk)
        (r r' : AnyResolver Client Tx) (t : api.Transfer) (valid : api.ValidTransfer)
        (stock : Stock)
        → IsConnected env args r
        → api.load_transfer file w.disk ≡ ok t
        → api.validate_transfer t (with_terminals env args api r t) (is_testnet args.network)
          ≡ (r', ok valid)
        → api.accept_transfer s.stock valid r' ≡ (stock, ok tt)
        → accept_with env args api file (s, w) ≡ (
          (
            record s { stock = stock; dirty = true },
            (print {E = WalletError foreign} (log "Transfer accepted into the stash\n") w).0,
          ),
          ok tt,
        )
    unfolding StockStore.deref_mut
    accept_with-runs file s w r r' t valid stock c loads validates accepts =
        rw (connected-resolver w r c, loads, validates, accepts) refl

    -- `accept` returns without an error, and the stock's file holds the stock with the transfer
    -- accepted, if the stock's file is there and keeps what was stored, the resolver is connected,
    -- the transfer loads and is valid, the stock accepts it and the file system stores it.
    pub accept_completes :
        (force : Bool) (file : String) (w : World Disk) (there : IsThere env args w.disk)
        (r r' : AnyResolver Client Tx) (t : api.Transfer) (valid : api.ValidTransfer)
        (stock : Stock)
        → StoreLaws (stock_files env)
        → IsConnected env args r
        → api.load_transfer file w.disk ≡ ok t
        → api.validate_transfer t (with_terminals env args api r t) (is_testnet args.network)
          ≡ (r', ok valid)
        → api.accept_transfer there.stock valid r' ≡ (stock, ok tt)
        → (env.store_stock stock args.base_dir w.disk).1 ≡ ok tt
        → ((run_accept env args api force file w).1 ≡ ok tt)
          × ((stock_files env).load args.base_dir (run_accept env args api force file w).0.disk
              ≡ some stock)
    unfolding run_accept rgb_stock StockStore.attach StockStore.drop StockStore.store
    accept_completes force file w there r r' t valid stock laws c loads validates accepts stores =
        let v = (load_stock env args args.base_dir w).0 in
        let same : v.disk ≡ w.disk = load_stock-OnDisk env args w.disk there w refl in
        let s = StockStore.attach (stock_files env) args.base_dir there.stock in
        let opened : rgb_stock env args w ≡ (v, ok s) =
          after-return (load_stock env args args.base_dir w)
            (λ stock. pure (StockStore.attach (stock_files env) args.base_dir stock)) there.stock
            (load_stock-loaded env args w there.stock there.loads) in
        rw (opened) (
          hold_completes (accept_with env args api file) s v
            (print {E = WalletError foreign} (log "Transfer accepted into the stash\n") v).0 stock
            tt laws
            (accept_with-runs file s v r r' t valid stock c
              (ap (api.load_transfer file) same ∙ loads) validates accepts)
            (ap (λ d. (env.store_stock stock args.base_dir d).1) same ∙ stores))
