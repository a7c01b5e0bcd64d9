-- ===== src/Cli/ReadState.antt =====
-- `state`, `inspect` and `reconstruct` of cli/src/command.rs where they name no file to write.
use rgb.Base.{
  ℕ, ◌≡◌, refl, ap, String, Bool, true, false, [], none, Result, ok, err, panic, map_err,
  expect_some, expect_ok,
}
use rgb.Cli.Args.{load_stock, rgb_wallet_from_stock}
use rgb.Cli.Env.{Env, stock_files, RgbArgs}
use rgb.Cli.Files.{FileApi, UniversalFile, Kit, kit, contract, transfer}
use rgb.Cli.Inspect.{
  InspectApi, inspect_content, inspect_dir, part_map, parts, run_inspect, run_reconstruct,
}
use rgb.Cli.Io.{out, World, print, for_each, inner}
use rgb.Cli.Keeps.{Keeps, after-Keeps, bind-Keeps, for_each-Keeps, OnDisk, With, hold-OnDisk}
use rgb.Cli.Reads.{
  IsCleanWallet, IsReadable, load_stock-OnDisk, rgb_wallet_from_stock-OnDisk,
  rgb_wallet_from_stock-IsClean, drop_clean_wallet,
}
use rgb.Cli.Stash.{of_stock, WalletCmd}
use rgb.Cli.State.{StateApi, Held, filter_of, with_found, state_lines, run_state, no_wallet}
use rgb.Store.Wallet as WalletStore
use rgb.Wallet.Errors.{WalletError, io, load, yaml as yaml_error}

module _ (env : Env) (args : RgbArgs) where
  open env use {foreign, Disk, Config, wallet_api, wallet_files}

  module _ (api : StateApi env) where
    abbrev listing_of : Bool → api.Contract → Held env args api → WalletCmd env args (Unit {0})
    listing_of all c s =
        for_each (state_lines env args api c (filter_of env args api all s))
          (λ line. inner (print line))

    with_found-OnDisk :
        (disk : Disk) (all : Bool) (c : api.Contract)
        (t : World Disk × Result (WalletError foreign) (Held env args api))
        → OnDisk disk t.0
        → ((s : Held env args api) → t.1 ≡ ok s → IsCleanWallet env args s)
        → OnDisk disk (with_found env args api t all c).0
    with_found-OnDisk disk all c (v, ok s) h clean =
        hold-OnDisk disk (IsCleanWallet env args)
          (WalletStore.drop (stock_files env) wallet_files wallet_api {E = WalletError foreign}) s
          (listing_of all c s) v (drop_clean_wallet env args)
          (for_each-Keeps (With disk (IsCleanWallet env args))
            (state_lines env args api c (filter_of env args api all s)) (λ line. inner (print line))
            (λ line p k. k))
          (clean s refl) h
    with_found-OnDisk disk all c (v, err e) h clean =
        for_each-Keeps (OnDisk disk) (state_lines env args api c no_wallet) print (λ line w k. k)
          (print {E = WalletError foreign} (out "no wallets found\n") v).0 h
    with_found-OnDisk disk all c (v, panic) h clean = h

    pub run_state-OnDisk :
        (disk : Disk) (config : Config) (all : Bool) (contract_id : ℕ) (iface : String)
        → IsReadable env args disk
        → Keeps (OnDisk disk) (run_state env args api config all contract_id iface)
    unfolding run_state
    run_state-OnDisk disk config all contract_id iface r =
        bind-Keeps (OnDisk disk) (load_stock env args args.base_dir) _
          (load_stock-OnDisk env args disk r.there)
          (λ stock w h.
            after-Keeps (OnDisk disk) (w, expect_some (env.type_name iface)) _ h
              (λ name v k.
                after-Keeps (OnDisk disk)
                  (v, map_err (api.contract_iface stock contract_id name) (of_stock env args)) _ k
                  (λ c u l.
                    with_found-OnDisk disk all c (rgb_wallet_from_stock env args config stock u)
                      (rgb_wallet_from_stock-OnDisk env args disk config stock r u l)
                      (λ s e.
                        rgb_wallet_from_stock-IsClean env args config stock u
                          (rgb_wallet_from_stock env args config stock u).0 s
                          (ap (λ t. ((rgb_wallet_from_stock env args config stock u).0, t)) e)))))

  module _ (files : FileApi env) (api : InspectApi env files) where
    inspect_content-OnDisk :
        (disk : Disk) (content : UniversalFile (Kit files.Rest) files.Contract files.Transfer)
        (dir : Bool)
        → Keeps (OnDisk disk) (inspect_content env args files api content none dir)
    unfolding inspect_dir
    inspect_content-OnDisk disk (kit k) true w h =
        after-Keeps (OnDisk disk) (w, expect_ok (api.as_yaml (kit k))) _ h (λ text v k. k)
    inspect_content-OnDisk disk (contract c) true w h =
        after-Keeps (OnDisk disk) (w, part_map env args files api [] (parts env args files api c)) _
          h (λ m v k. k)
    inspect_content-OnDisk disk (transfer t) true w h =
        after-Keeps (OnDisk disk)
          (w, part_map env args files api [] (parts env args files api (api.into_contract t))) _ h
          (λ m v k. k)
    inspect_content-OnDisk disk content false w h =
        after-Keeps (OnDisk disk) (w, expect_ok (api.as_yaml content)) _ h (λ text v k. k)

    pub run_inspect-OnDisk :
        (disk : Disk) (file : String) (dir : Bool)
        → Keeps (OnDisk disk) (run_inspect env args files api file none dir)
    unfolding run_inspect
    run_inspect-OnDisk disk file dir w h =
        after-Keeps (OnDisk disk) (w, map_err (files.load_file file w.disk) load) _ h
          (λ content v k. inspect_content-OnDisk disk content dir v k)

    pub run_reconstruct-OnDisk :
        (disk : Disk) (is_contract : Bool) (src : String)
        → Keeps (OnDisk disk) (run_reconstruct env args files api is_contract src none)
    unfolding run_reconstruct
    run_reconstruct-OnDisk disk true src w h =
        after-Keeps (OnDisk disk) (w, map_err (api.open_file src w.disk) io) _ h
          (λ text v k.
            after-Keeps (OnDisk disk) (v, map_err (api.contract_from text) yaml_error) _ k
              (λ t u l. l))
    run_reconstruct-OnDisk disk false src w h =
        after-Keeps (OnDisk disk) (w, map_err (api.open_file src w.disk) io) _ h
          (λ text v k.
            after-Keeps (OnDisk disk) (v, map_err (api.transfer_from text) yaml_error) _ k
              (λ t u l. l))
