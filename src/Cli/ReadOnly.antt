-- ===== src/Cli/ReadOnly.antt =====
-- The commands of cli/src/command.rs that change no file, by `exec`.
use Prim.Native.String.{◌++◌ as ◌<>◌}
use rgb.Base.{
  ℕ, ◌≡◌, refl, String, Bool, true, false, none, List, Result, ok, err, panic, arith, map_err,
  expect_some,
}
use rgb.Cli.Args.{resolver}
use rgb.Cli.Command.{
  debug, taprets, schemata, interfaces, contracts, export, armor, state, history_fungible, inspect,
  reconstruct, validate,
}
use rgb.Cli.Env.{Env, stock_files, RgbArgs}
use rgb.Cli.Exec.{ExecApi, Cli, exec_command, exec}
use rgb.Cli.Files.{export_with, run_export, run_convert, run_validate, status_of, with_terminals}
use rgb.Cli.Io.{out, World, for_each, print, say}
use rgb.Cli.Keeps.{Keeps, after-Keeps, bind-Keeps, for_each-Keeps, OnDisk, With}
use rgb.Cli.ReadState.{run_state-OnDisk, run_inspect-OnDisk, run_reconstruct-OnDisk}
use rgb.Cli.Reads.{
  IsClean, IsCleanWallet, IsReadable, with_stock-OnDisk, with_wallet-OnDisk, resolver-OnDisk,
}
use rgb.Cli.Stash.{
  history_row, list_all, list_taprets, history_with, contracts_of, print_all, of_stock, run_taprets,
  run_schemata, run_interfaces, run_contracts, run_history,
}
use rgb.Store.Wallet as WalletStore
use rgb.Wallet.Errors.{WalletError, custom, load}

module _ (env : Env) (args : RgbArgs) (api : ExecApi env) (config : env.Config) (draw : ℕ) where
  -- the commands that print and write nothing
  abbrev pub is_read_only : Cli env args api config draw → Bool
  is_read_only (debug d) = true
  is_read_only schemata = true
  is_read_only interfaces = true
  is_read_only (contracts standard) = true
  is_read_only (history_fungible contract_id iface) = true
  is_read_only (export armored contract_id none) = true
  is_read_only (armor file) = true
  is_read_only (validate file) = true
  is_read_only (state all contract_id iface) = true
  is_read_only (inspect file none dir) = true
  is_read_only (reconstruct is_contract src none) = true
  is_read_only _ = false

  list_all-Keeps :
      (disk : env.Disk) (call : env.Stock → Result env.StockError (List String))
      → Keeps (With disk (IsClean env args)) (list_all env args call)
  list_all-Keeps disk call (s, w) h =
      after-Keeps (With disk (IsClean env args))
        ((s, w), map_err (call s.stock) (of_stock env args)) (print_all env args) h
        (λ infos.
          for_each-Keeps (With disk (IsClean env args)) infos (λ info. say (out info))
            (λ info p k. k))

  list_taprets-Keeps :
      (disk : env.Disk) → Keeps (With disk (IsClean env args)) (list_taprets env args api.stash)
  list_taprets-Keeps disk (s, w) h =
      after-Keeps (With disk (IsClean env args)) ((s, w), api.stash.taprets s.stock) _ h
        (λ all.
          for_each-Keeps (With disk (IsClean env args)) all
            (λ t. say (out (t.0 <> "\t" <> t.1 <> "\n"))) (λ t p k. k))

  history_with-Keeps :
      (disk : env.Disk) (contract_id : ℕ) (iface : String)
      → Keeps
          (With disk (IsCleanWallet env args))
          (history_with env args api.stash contract_id iface)
  unfolding history_with
  history_with-Keeps disk contract_id iface (s, w) h =
      let C = With disk (IsCleanWallet env args) in
      after-Keeps C ((s, w), expect_some (env.type_name iface)) _ h
        (λ name p k.
          after-Keeps C
            (
              p,
              map_err
                  (WalletStore.fungible_history (stock_files env) env.wallet_files env.wallet_api s
                    (api.stash.contract_id contract_id) (api.stash.iface_ref name))
                  api.stash.wallet_error,
            )
            _ k
            (λ h p k.
              for_each-Keeps C (api.stash.entries h)
                (λ entry. for_each (history_row env args api.stash entry) say)
                (λ entry. for_each-Keeps C (history_row env args api.stash entry) say (λ l p k. k))
                (
                  p.0,
                  (print {E = WalletError env.foreign} (out "Amount\tCounterparty\tWitness Id\n")
                      p.1).0,
                )
                k))

  export_with-Keeps :
      (disk : env.Disk) (contract_id : ℕ)
      → Keeps (With disk (IsClean env args)) (export_with env args api.files contract_id none)
  export_with-Keeps disk contract_id (s, w) h =
      after-Keeps (With disk (IsClean env args))
        (
          (s, w),
          map_err (api.files.export_contract s.stock contract_id) (λ e. custom (env.to_string e)),
        )
        _ h (λ c p k. k)

  status_of-OnDisk :
      (disk : env.Disk) (r : Result env.foreign.Status api.files.ValidTransfer)
      → Keeps (OnDisk disk) (status_of env args api.files r)
  status_of-OnDisk disk (ok valid) w h = h
  status_of-OnDisk disk (err status) w h = h
  status_of-OnDisk disk panic w h = h

  exec_command-OnDisk :
      (disk : env.Disk) (command : Cli env args api config draw)
      → IsReadable env args disk
      → is_read_only command ≡ true
      → Keeps (OnDisk disk) (exec_command env args api config draw command)
  unfolding exec_command run_taprets run_schemata run_interfaces run_contracts run_history
      run_export run_convert run_validate
  exec_command-OnDisk disk (debug taprets) r ro =
      with_stock-OnDisk env args disk (list_taprets env args api.stash) r.there
        (list_taprets-Keeps disk)
  exec_command-OnDisk disk schemata r ro =
      with_stock-OnDisk env args disk (list_all env args api.stash.schemata) r.there
        (list_all-Keeps disk api.stash.schemata)
  exec_command-OnDisk disk interfaces r ro =
      with_stock-OnDisk env args disk (list_all env args api.stash.ifaces) r.there
        (list_all-Keeps disk api.stash.ifaces)
  exec_command-OnDisk disk (contracts standard) r ro =
      with_stock-OnDisk env args disk (list_all env args (contracts_of env args api.stash standard))
        r.there (list_all-Keeps disk (contracts_of env args api.stash standard))
  exec_command-OnDisk disk (history_fungible contract_id iface) r ro =
      with_wallet-OnDisk env args disk config (history_with env args api.stash contract_id iface) r
        (history_with-Keeps disk contract_id iface)
  exec_command-OnDisk disk (export armored contract_id none) r ro =
      with_stock-OnDisk env args disk (export_with env args api.files contract_id none) r.there
        (export_with-Keeps disk contract_id)
  exec_command-OnDisk disk (armor file) r ro = λ w h.
      after-Keeps (OnDisk disk) (w, map_err (api.files.load_file file w.disk) load) _ h (λ c v k. k)
  exec_command-OnDisk disk (validate file) r ro =
      bind-Keeps (OnDisk disk) (resolver env args) _ (resolver-OnDisk env args disk) (λ r w h.
        after-Keeps (OnDisk disk) (w, map_err (api.files.load_transfer file w.disk) load) _ h
          (λ c v k.
            bind-Keeps (OnDisk disk)
              (status_of env args api.files
                (api.files.validate_transfer c (with_terminals env args api.files r c)
                  (env.is_testnet args.network)).1)
              _
              (status_of-OnDisk disk
                (api.files.validate_transfer c (with_terminals env args api.files r c)
                  (env.is_testnet args.network)).1)
              (λ status v k. k) v k))
  exec_command-OnDisk disk (state all contract_id iface) r ro =
      run_state-OnDisk env args api.state disk config all contract_id iface r
  exec_command-OnDisk disk (inspect file none dir) r ro =
      run_inspect-OnDisk env args api.files api.inspect disk file dir
  exec_command-OnDisk disk (reconstruct is_contract src none) r ro =
      run_reconstruct-OnDisk env args api.files api.inspect disk is_contract src
  exec_command-OnDisk disk _ r ro = absurd (ground arith)

  -- A command that only reads leaves the disk as it was, however it ends, if the stock's file is
  -- there and to start the wallet's runtime leaves the disk alone.
  pub exec_read_only :
      (w : World env.Disk) (command : Cli env args api config draw)
      → IsReadable env args w.disk
      → is_read_only command ≡ true
      → (exec env args api config draw command w).0.disk ≡ w.disk
  unfolding exec
  exec_read_only w command r ro =
      bind-Keeps (OnDisk w.disk) (exec_command env args api config draw command) _
        (exec_command-OnDisk w.disk command r ro) (λ done v k. k) w refl
