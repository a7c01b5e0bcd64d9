-- ===== src/Cli/Accepted.antt =====
-- What `accept` of cli/src/command.rs takes into the stock.
use rgb.Base.{◌≡◌, ◌≢◌, refl, ap, sym, ◌∙◌, String, Bool, Result, ok, panic, map_err}
use rgb.Cli.Args.{resolver}
use rgb.Cli.Connected.{resolver-IsConnected, resolver-IsFresh}
use rgb.Cli.Env.{Env, stock_files, RgbArgs}
use rgb.Cli.Files.{FileApi, with_terminals, accept_with, run_accept, change_stock}
use rgb.Cli.Io.{World, inner}
use rgb.Cli.Keeps.{map_err-ok, after-Keeps, after-Keeps_ok}
use rgb.Cli.Reads.{IsThere}
use rgb.Cli.Server.{IsServed, connected-IsServed}
use rgb.Cli.Settled.{
  IsFresh, fresh-IsSettled, change-IsSettled, IsSettled, EndsWith, with_stock_settled,
}
use rgb.Resolver.Any.{AnyResolver, add_terminals}
use rgb.Store.Disk.{StoreLaws}
use rgb.Store.Stock.{StoredStock}
use rgb.Wallet.Errors.{load, invalid_consignment}

module _ (env : Env) (args : RgbArgs) where
  open env use {foreign, Disk, Stock, Client, Tx, client_api, txid, not_layer1, is_testnet}

  module _ (api : FileApi env) where
    open api use {Rest, Contract, Transfer}

    -- `s` is what `stock` accepts of the transfer in a file, which is valid
    pub record IsAccepted (file : String) (disk : Disk) (stock s : Stock) : Type 0 where
      pub resolver : AnyResolver Client Tx
      pub served : IsServed env args resolver
      pub transfer : Transfer
      pub loads : api.load_transfer file disk ≡ ok transfer
      pub valid : api.ValidTransfer
      pub validates :
          (api.validate_transfer transfer
            (add_terminals client_api txid not_layer1 resolver (api.witnesses transfer))
            (is_testnet args.network)).1
          ≡ ok valid
      pub accepts :
          s
          ≡ (api.accept_transfer stock valid
              (api.validate_transfer transfer
                (add_terminals client_api txid not_layer1 resolver (api.witnesses transfer))
                (is_testnet args.network)).0).0

    accept_settles :
        (file : String) (disk : Disk) (stock : Stock) (p : StoredStock String Stock × World Disk)
        → IsFresh env args disk stock p
        → IsSettled env args disk (IsAccepted file disk stock) (accept_with env args api file p).0
    accept_settles file disk stock (s, w) h =
        let Q = IsAccepted file disk stock in
        let I = IsSettled env args disk Q in
        let w1 = (resolver env args w).0 in
        let h1 = resolver-IsFresh env args disk stock (s, w) h in
        let settled = fresh-IsSettled env args disk stock Q (s, w1) h1 in
        after-Keeps_ok I (inner (resolver env args) (s, w)) _ settled (λ r connects.
          after-Keeps_ok I ((s, w1), map_err (api.load_transfer file w1.disk) load) _ settled
            (λ t loads.
              let checked =
                api.validate_transfer t (with_terminals env args api r t)
                  (is_testnet args.network) in
              after-Keeps_ok I ((s, w1), map_err checked.1 invalid_consignment) _ settled
                (λ valid validates.
                  let call : Stock → Stock × Result env.StockError (Unit {0}) =
                    λ x. api.accept_transfer x valid checked.0 in
                  after-Keeps I (change_stock env args call (s, w1)) _
                    (change-IsSettled env args disk stock Q (s, w1) call h1
                      (record {
                        resolver = r;
                        served =
                            connected-IsServed env args r
                              (resolver-IsConnected env args w r connects);
                        transfer = t;
                        loads =
                            ap (api.load_transfer file) (sym h1.same_disk)
                            ∙ map_err-ok _ load t loads;
                        valid = valid;
                        validates = map_err-ok checked.1 invalid_consignment valid validates;
                        accepts = refl;
                      }))
                    (λ done p k. k))))

    -- An `accept` that does not panic leaves the disk as it was, or it leaves in the stock's file
    -- what the stock accepts of the transfer in the file, which was validated over the resolver
    -- of the one server that the arguments name with the transfer's terminals added. The stock's
    -- file is there at the start and keeps what was stored.
    pub accept_valid :
        (force : Bool) (file : String) (w : World Disk) (r : IsThere env args w.disk)
        → StoreLaws (stock_files env)
        → (run_accept env args api force file w).1 ≢ panic
        → EndsWith env args w.disk
            (IsAccepted file w.disk r.stock)
            (run_accept env args api force file w).0.disk
    unfolding run_accept
    accept_valid force file w r laws =
        with_stock_settled env args w.disk (IsAccepted file w.disk r.stock)
          (accept_with env args api file) r w laws refl (accept_settles file w.disk r.stock)
