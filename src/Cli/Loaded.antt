-- ===== src/Cli/Loaded.antt =====
-- `load_stock` of cli/src/args.rs and the file of the stock.
use rgb.Base.{
  ◌≡◌, refl, ap, sym, ◌∙◌, String, Bool, true, false, some, Result, ok, err, panic, arith,
  Bool-cases, inl, inr, ltb,
}
use rgb.Cli.Args.{verbose_log, create_stock, loaded_or, load_stock}
use rgb.Cli.Env.{Env, loaded, stock_files, RgbArgs}
use rgb.Cli.Io.{World, pure, on_disk, print, log, when, after}
use rgb.Cli.Keeps.{after-done, map_err-ok}
use rgb.Store.Disk.{StoreLaws}
use rgb.Wallet.Errors.{WalletError, io, serialize}

module _ (env : Env) (args : RgbArgs) (laws : StoreLaws (stock_files env)) where
  open env use {foreign, Disk, Stock, create_dir_all, store_stock, default_stock}

  create_stock-holds :
      (path : String) (w w' : World Disk) (s : Stock)
      → create_stock env args path w ≡ (w', ok s)
      → (stock_files env).load path w'.disk ≡ some s
  unfolding create_stock
  create_stock-holds path w w' s h =
      let first = verbose_log env args "stock file is absent, creating a new one ... " w in
      let (d1, e1, h1) = after-done first _ w' s h in
      let made = on_disk (create_dir_all path) io first.0 in
      let (d2, e2, h2) = after-done made _ w' s h1 in
      let put = on_disk (store_stock default_stock path) serialize made.0 in
      let (d3, e3, h3) = after-done put _ w' s h2 in
      let stored = laws.load-store default_stock path made.0.disk (map_err-ok _ serialize tt e3) in
      logged (ltb 1 args.verbose) put.0 stored h3
    where
      logged :
          (b : Bool) (v : World Disk)
          → (stock_files env).load path v.disk ≡ some default_stock
          → after
              (when b (print {E = WalletError foreign} (log "success\n")) v)
              (λ done. pure default_stock)
            ≡ (w', ok s)
          → (stock_files env).load path w'.disk ≡ some s
      logged true v k e =
          let same : default_stock ≡ s = ground arith in
          ap (λ t. (stock_files env).load path t.0.disk) (sym e) ∙ (k ∙ ap some same)
      logged false v k e =
          let same : default_stock ≡ s = ground arith in
          ap (λ t. (stock_files env).load path t.0.disk) (sym e) ∙ (k ∙ ap some same)

  loaded_or-holds :
      (path : String) (t : Result foreign.Deserialize Stock) (w w' : World Disk) (s : Stock)
      → env.load_stock path w.disk ≡ t
      → loaded_or env args path t w ≡ (w', ok s)
      → (stock_files env).load path w'.disk ≡ some s
  loaded_or-holds path (ok stock) w w' s e h =
      let same : stock ≡ s = ground arith in
      ap (λ t. (stock_files env).load path t.0.disk) (sym h) ∙ (ap loaded e ∙ ap some same)
  loaded_or-holds path (err x) w w' s e h = elim (Bool-cases (env.is_not_found x)) [
    | inl absent ↦ create_stock-holds path w w' s (ground arith)
    | inr damaged ↦ absurd (ground arith)
  ]
  loaded_or-holds path panic w w' s e h = absurd (ground arith)

  -- A stock that `load_stock` returns is in the file then, whether it was there or was created, if
  -- the file keeps what was stored.
  pub load_stock-holds :
      (path : String) (w w' : World Disk) (s : Stock)
      → load_stock env args path w ≡ (w', ok s)
      → (stock_files env).load path w'.disk ≡ some s
  unfolding load_stock
  load_stock-holds path w w' s h =
      let first = verbose_log env args "Loading stock ... " w in
      let (done, e, h1) = after-done first _ w' s h in
      loaded_or-holds path (env.load_stock path first.0.disk) first.0 w' s refl h1
