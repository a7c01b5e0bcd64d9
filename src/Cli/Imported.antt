-- ===== src/Cli/Imported.antt =====
-- What `import` of cli/src/command.rs takes into the stock.
use Prim.Native.String.{◌++◌ as ◌<>◌}
use rgb.Base.{
  ◌≡◌, ◌≢◌, refl, ap, sym, ◌∙◌, String, Bool, true, false, Result, ok, err, panic, arith, map_err,
}
use rgb.Cli.Args.{resolver}
use rgb.Cli.Server.{IsServed, connected-IsServed}
use rgb.Cli.Connected.{resolver-IsConnected, resolver-IsFresh, say-IsFresh}
use rgb.Cli.Env.{Env, stock_files, RgbArgs}
use rgb.Cli.Files.{FileApi, UniversalFile, Kit, kit, contract, transfer, change_stock}
use rgb.Cli.Import.{
  import_with, run_import, kit_lines, log_all, validated, import_a_kit, import_a_contract,
  import_content,
}
use rgb.Cli.Io.{World, print, say, log, inner}
use rgb.Cli.Keeps.{map_err-ok, Keeps, after-Keeps, after-Keeps_ok, for_each-Keeps}
use rgb.Cli.Reads.{IsThere}
use rgb.Cli.Settled.{
  IsFresh, fresh-IsSettled, change-IsSettled, IsSettled, EndsWith, with_stock_settled,
}
use rgb.Resolver.Any.{AnyResolver}
use rgb.Store.Disk.{StoreLaws}
use rgb.Store.Stock.{StoredStock}
use rgb.Wallet.Errors.{WalletError, load, custom}

module _ (env : Env) (args : RgbArgs) where
  open env use {foreign, Disk, Stock, Client, Tx, client_api, txid, not_layer1, is_testnet}

  module _ (api : FileApi env) where
    open api use {Rest, Contract, Transfer}

    -- `s` is what `stock` imports of the file: a valid kit, or a valid contract
    pub data Imported (file : String) (disk : Disk) (stock s : Stock) : Type 0 where
      of_kit :
          (k : Kit Rest) (valid : api.ValidKit)
          → api.load_file file disk ≡ ok (kit k)
          → api.validate_kit k ≡ ok valid
          → s ≡ (api.import_kit stock valid).0
          → Imported file disk stock s
      of_contract :
          (c : Contract) (r : AnyResolver Client Tx) (valid : api.ValidContract)
          → api.load_file file disk ≡ ok (contract c)
          → IsServed env args r
          → (api.validate_contract c r (is_testnet args.network)).1 ≡ ok valid
          → s
            ≡ (api.import_contract stock valid
                (api.validate_contract c r (is_testnet args.network)).0).0
          → Imported file disk stock s

    kit_settles :
        (file : String) (disk : Disk) (stock : Stock) (k : Kit Rest)
        (p : StoredStock String Stock × World Disk)
        → api.load_file file disk ≡ ok (kit k)
        → IsFresh env args disk stock p
        → IsSettled env args disk (Imported file disk stock) (import_a_kit env args api k p).0
    unfolding import_a_kit
    kit_settles file disk stock k p loads h =
        let Q = Imported file disk stock in
        let I = IsSettled env args disk Q in
        let logs = log_all env args api (kit_lines env args api k) in
        let q = (logs p).0 in
        let h1 =
          for_each-Keeps (IsFresh env args disk stock) (kit_lines env args api k)
            (λ line. say {E = WalletError foreign} (log line))
            (λ line. say-IsFresh env args disk stock (log line)) p h in
        let settled = fresh-IsSettled env args disk stock Q q h1 in
        after-Keeps_ok I (logs p) _ settled (λ done printed.
          after-Keeps_ok I
            (q, map_err (api.validate_kit k) (λ status. custom (api.show_status status))) _ settled
            (λ valid validates.
              let call : Stock → Stock × Result env.StockError (Unit {0}) =
                λ x. api.import_kit x valid in
              after-Keeps I (change_stock env args call q) _
                (change-IsSettled env args disk stock Q q call h1
                  (of_kit k valid loads (map_err-ok (api.validate_kit k) _ valid validates) refl))
                (λ done p k. k)))

    validated-IsFresh :
        {A : Type 0} (disk : Disk) (stock : Stock) (r : Result foreign.Status A)
        → Keeps (IsFresh env args disk stock) (validated env args api r)
    validated-IsFresh disk stock (ok a) p h = say-IsFresh env args disk stock (log "success\n") p h
    validated-IsFresh disk stock (err e) p h = say-IsFresh env args disk stock (log "failure\n") p h
    validated-IsFresh disk stock panic p h = h

    validated-ok :
        {A : Type 0} (r : Result foreign.Status A) (p : StoredStock String Stock × World Disk)
        (a : A)
        → (validated env args api r p).1 ≡ ok a
        → r ≡ ok a
    validated-ok (ok b) p a h = ground arith
    validated-ok (err e) p a h = absurd (ground arith)
    validated-ok panic p a h = absurd (ground arith)

    contract_settles :
        (file : String) (disk : Disk) (stock : Stock) (c : Contract)
        (p : StoredStock String Stock × World Disk)
        → api.load_file file disk ≡ ok (contract c)
        → IsFresh env args disk stock p
        → IsSettled env args disk (Imported file disk stock) (import_a_contract env args api c p).0
    unfolding import_a_contract
    contract_settles file disk stock c (s, w) loads h =
        let Q = Imported file disk stock in
        let I = IsSettled env args disk Q in
        let text = log ("Importing consignment " <> api.consignment_id c <> ":\n") in
        let w1 = (print {E = WalletError foreign} text w).0 in
        let h1 = say-IsFresh env args disk stock text (s, w) h in
        let w2 = (resolver env args w1).0 in
        let h2 = resolver-IsFresh env args disk stock (s, w1) h1 in
        after-Keeps_ok I (inner (resolver env args) (s, w1)) _
          (fresh-IsSettled env args disk stock Q (s, w2) h2)
          (λ r connects.
            let checked = api.validate_contract c r (is_testnet args.network) in
            let text2 = log ("- validating the contract " <> api.contract_id c <> " ... ") in
            let q = (say {E = WalletError foreign} text2 (s, w2)).0 in
            let v = validated env args api checked.1 q in
            let h4 =
              validated-IsFresh disk stock checked.1 q
                (say-IsFresh env args disk stock text2 (s, w2) h2) in
            after-Keeps_ok I v _ (fresh-IsSettled env args disk stock Q v.0 h4) (λ valid validates.
              let call : Stock → Stock × Result env.StockError (Unit {0}) =
                λ x. api.import_contract x valid checked.0 in
              after-Keeps I (change_stock env args call v.0) _
                (change-IsSettled env args disk stock Q v.0 call h4 (
                  of_contract c r valid loads
                    (connected-IsServed env args r (resolver-IsConnected env args w1 r connects))
                    (validated-ok checked.1 q valid validates) refl))
                (λ done p k. k)))

    content_settles :
        (file : String) (disk : Disk) (stock : Stock)
        (content : UniversalFile (Kit Rest) Contract Transfer)
        (p : StoredStock String Stock × World Disk)
        → api.load_file file disk ≡ ok content
        → IsFresh env args disk stock p
        → IsSettled env args disk
            (Imported file disk stock)
            (import_content env args api content p).0
    content_settles file disk stock (kit k) p loads h = kit_settles file disk stock k p loads h
    content_settles file disk stock (contract c) p loads h =
        contract_settles file disk stock c p loads h
    content_settles file disk stock (transfer t) p loads h =
        fresh-IsSettled env args disk stock (Imported file disk stock) p h

    import_settles :
        (armored : Bool) (file : String) (disk : Disk) (stock : Stock)
        (p : StoredStock String Stock × World Disk)
        → IsFresh env args disk stock p
        → IsSettled env args disk
            (Imported file disk stock)
            (import_with env args api armored file p).0
    import_settles true file disk stock p h =
        fresh-IsSettled env args disk stock (Imported file disk stock) p h
    import_settles false file disk stock (s, w) h =
        let Q = Imported file disk stock in
        after-Keeps_ok (IsSettled env args disk Q)
          ((s, w), map_err (api.load_file file w.disk) load) (import_content env args api)
          (fresh-IsSettled env args disk stock Q (s, w) h)
          (λ content loads.
            content_settles file disk stock content (s, w)
              (ap (api.load_file file) (sym h.same_disk) ∙ map_err-ok _ load content loads) h)

    -- An `import` that does not panic leaves the disk as it was, or it leaves in the stock's file
    -- what the stock imports of the kit or the contract in the file, which has been validated. The
    -- stock's file is there at the start and keeps what was stored.
    pub import_valid :
        (armored : Bool) (file : String) (w : World Disk) (r : IsThere env args w.disk)
        → StoreLaws (stock_files env)
        → (run_import env args api armored file w).1 ≢ panic
        → EndsWith env args w.disk
            (Imported file w.disk r.stock)
            (run_import env args api armored file w).0.disk
    unfolding run_import
    import_valid armored file w r laws =
        with_stock_settled env args w.disk (Imported file w.disk r.stock)
          (import_with env args api armored file) r w laws refl
          (import_settles armored file w.disk r.stock)
