-- ===== src/Cli/Args.antt =====
-- cli/src/args.rs: the choice of the descriptor, the stock, the wallet and the resolver.
use rgb.Base.{
  String, Bool, ◌||◌, Option, none, some, Result, ok, err, panic, map_err, or_else, ltb, is_some,
  if◌then◌else◌,
}
use rgb.Cli.Env.{Env, stock_files, RgbArgs}
use rgb.Cli.Io.{World, log, Io, pure, lift, try, ◌>>=◌, ◌>>◌, when, print, on_disk}
use rgb.Descriptor.Api.{DescriptorApi}
use rgb.Descriptor.Descr.{Descr, wpkh, tapret_key}
use rgb.Descriptor.Tapret.{from_key}
use rgb.Resolver.Any.{AnyResolver, from_client}
use rgb.Resolver.Any as Any
use rgb.Store.Stock as StockStore
use rgb.Store.Stock.{StoredStock}
use rgb.Store.Wallet as WalletStore
use rgb.Store.Wallet.{StoredWallet}
use rgb.Wallet.Errors.{
  WalletError, io, serialize, deserialize, bp, resolver as resolver_error, custom,
}

pub record DescrRgbOpts (K : Type 0) : Type 0 where
  pub tapret_key_only : Option K
  pub wpkh : Option K

abbrev pub map_option : {A B : Type 0} → (A → B) → Option A → Option B
map_option f none = none
map_option f (some a) = some (f a)

module _ (api : DescriptorApi) where
  unfoldable pub opts_is_some : DescrRgbOpts api.XpubDerivable → Bool
  opts_is_some o = is_some o.tapret_key_only || is_some o.wpkh

  unfoldable pub descriptor : DescrRgbOpts api.XpubDerivable → Option (Descr api)
  unfolding from_key
  descriptor o =
      or_else (map_option (λ k. tapret_key (from_key k)) o.tapret_key_only)
        (map_option (λ k. wpkh (api.wpkh_from k)) o.wpkh)

module _ (env : Env) (args : RgbArgs) where
  open env use {
    foreign, Disk, Stock, Wallet, Config, Client, Tx, is_not_found, create_dir_all, store_stock,
    default_stock, bp_runtime, wallet_api, wallet_files, client_api, txid, not_layer1,
    electrum_client, esplora_client,
  }

  abbrev pub Cmd : Type 0 → Type 0
  Cmd A = Io (World Disk) (WalletError foreign) A

  abbrev pub verbose_log : String → Cmd (Unit {0})
  verbose_log text = when (ltb 1 args.verbose) (print (log text))

  -- the directory and the file of a stock that is absent
  unfoldable pub create_stock : String → Cmd Stock
  create_stock stock_path = do
    verbose_log "stock file is absent, creating a new one ... "
    on_disk (create_dir_all stock_path) io
    on_disk (store_stock default_stock stock_path) serialize
    verbose_log "success\n"
    pure default_stock

  -- the `or_else` on what `Stock::load` returned
  abbrev pub loaded_or : String → Result foreign.Deserialize Stock → Cmd Stock
  loaded_or stock_path (ok stock) = pure stock
  loaded_or stock_path panic = lift panic
  loaded_or stock_path (err e) =
      if is_not_found e
      then create_stock stock_path
      else (print (log "stock file is damaged, failing\n") >> lift (err (deserialize e)))

  unfoldable pub load_stock : String → Cmd Stock
  unfolding create_stock
  load_stock stock_path = do
    verbose_log "Loading stock ... "
    λ w. loaded_or stock_path (env.load_stock stock_path w.disk) w

  unfoldable pub rgb_stock : Cmd (StoredStock String Stock)
  unfolding load_stock
  rgb_stock = do
    stock ← load_stock args.base_dir
    pure (StockStore.attach (stock_files env) args.base_dir stock)

  unfoldable pub rgb_wallet_from_stock : Config → Stock → Cmd (StoredWallet String Wallet Stock)
  rgb_wallet_from_stock config stock = do
    found ← λ w. let (w', r) = bp_runtime config w in (w', map_err r bp)
    pure (
        WalletStore.attach (stock_files env) wallet_files wallet_api args.base_dir found.0 stock
          found.1)

  unfoldable pub rgb_wallet : Config → Cmd (StoredWallet String Wallet Stock)
  unfolding load_stock rgb_wallet_from_stock
  rgb_wallet config = do stock ← load_stock args.base_dir; rgb_wallet_from_stock config stock

  -- by the arguments that name a server
  unfoldable pub chosen : Option String → Option String → Result String (AnyResolver Client Tx)
  unfolding from_client
  chosen none (some url) = from_client (electrum_client url)
  chosen (some url) none = from_client (esplora_client url)
  chosen _ _ =
      err
        " - error: no transaction resolver is specified; use either --esplora or --electrum argument"

  unfoldable pub resolver : Cmd (AnyResolver Client Tx)
  unfolding chosen
  resolver = do
    r ← try (chosen args.esplora args.electrum) resolver_error
    try (Any.check client_api txid not_layer1 r args.network) custom
    pure r
