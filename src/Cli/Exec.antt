-- ===== src/Cli/Exec.antt =====
-- `exec` of cli/src/command.rs and `run` and `main` of cli/src/main.rs: one command, and the exit code.
use Prim.Native.String.{◌++◌ as ◌<>◌}
use rgb.Base.{ℕ, String, Result, ok, err, panic, ltb}
use rgb.Cli.Args.{Cmd}
use rgb.Cli.Command.{
  Command, general, debug, taprets, schemata, interfaces, utxos, contracts, import, export, armor,
  state, history_fungible, issue, invoice, prepare, consign, transfer, inspect, reconstruct, dump,
  validate, accept,
}
use rgb.Cli.Dump.{DumpApi, run_dump}
use rgb.Cli.Env.{Env, RgbArgs}
use rgb.Cli.Files.{FileApi, run_export, run_convert, run_validate, run_accept}
use rgb.Cli.Import.{run_import}
use rgb.Cli.Genesis.{IssueApi}
use rgb.Cli.Inspect.{InspectApi, run_inspect, run_reconstruct}
use rgb.Cli.Io.{out, log, World, Io, ◌>>◌, when, print}
use rgb.Cli.Issue.{InvoiceApi, run_issue, run_invoice}
use rgb.Cli.Spend.{SpendApi, run_prepare, run_consign, run_transfer}
use rgb.Cli.Stash.{StashApi, run_taprets, run_schemata, run_interfaces, run_contracts, run_history}
use rgb.Cli.State.{StateApi, run_state}
use rgb.Wallet.Errors.{WalletError}

-- All that the commands take from other crates. `general` runs a command of bpwallet, `balance` the
-- one that `utxos` stands for.
pub record ExecApi (env : Env) : Type 1 where
  pub stash : StashApi env
  pub spend : SpendApi env
  pub files : FileApi env
  pub state : StateApi env
  pub issue : IssueApi env files.ValidContract
  pub invoice : InvoiceApi env
  pub inspect : InspectApi env files
  pub dump : DumpApi env
  pub General : Type 0
  pub general : General → Io (World env.Disk) (WalletError env.foreign) (Unit {0})
  pub balance : General
  pub show_error : WalletError env.foreign → String

pub data ExitCode : Type 0 where
  success failure : ExitCode

module _ (env : Env) (args : RgbArgs) (api : ExecApi env) (config : env.Config) (draw : ℕ) where
  abbrev pub Cli : Type 0
  Cli = Command api.General env.wallet_api.RgbInvoice

  unfoldable pub exec_command : Cli → Cmd env args (Unit {0})
  exec_command (general cmd) = api.general cmd
  exec_command utxos = api.general api.balance
  exec_command (debug taprets) = run_taprets env args api.stash
  exec_command schemata = run_schemata env args api.stash
  exec_command interfaces = run_interfaces env args api.stash
  exec_command (contracts standard) = run_contracts env args api.stash standard
  exec_command (history_fungible contract_id iface) =
      run_history env args api.stash config contract_id iface
  exec_command (import armored file) = run_import env args api.files armored file
  exec_command (export armored contract_id file) =
      run_export env args api.files armored contract_id file
  exec_command (armor file) = run_convert env args api.files file
  exec_command (state all contract_id iface) =
      run_state env args api.state config all contract_id iface
  exec_command (issue schema_id issuer contract) =
      run_issue env args api.files api.issue schema_id issuer contract
  exec_command (invoice address_based contract_id iface value) =
      run_invoice env args api.invoice config draw address_based contract_id iface value
  exec_command (prepare as_v2 sats request fee psbt) =
      run_prepare env args api.spend config as_v2 sats request fee psbt
  exec_command (consign request psbt consignment) =
      run_consign env args api.spend config request psbt consignment
  exec_command (transfer as_v2 sats request fee consignment psbt) =
      run_transfer env args api.spend config as_v2 sats request fee consignment psbt
  exec_command (inspect file path dir) = run_inspect env args api.files api.inspect file path dir
  exec_command (reconstruct is_contract src dst) =
      run_reconstruct env args api.files api.inspect is_contract src dst
  exec_command (dump root_dir) = run_dump env args api.files api.inspect api.dump root_dir
  exec_command (validate file) = run_validate env args api.files file
  exec_command (accept force file) = run_accept env args api.files force file

  unfoldable pub exec : Cli → Cmd env args (Unit {0})
  unfolding exec_command
  exec command = do exec_command command; print (out "\n")

  unfoldable pub run : Cli → Cmd env args (Unit {0})
  unfolding exec
  run command = do
    when (ltb 3 args.verbose) (
        print (
          log
            "RGB: command-line wallet for RGB smart contracts\n     by LNP/BP Standards Association\n\n"))
    exec command

  -- the exit code; `panic` is not one of them
  abbrev pub code_of :
      World env.Disk × Result (WalletError env.foreign) (Unit {0})
      → World env.Disk × Result (WalletError env.foreign) ExitCode
  code_of (w, ok _) = (w, ok success)
  code_of (w, err e) =
      let (w', r) =
        print {E = WalletError env.foreign} (log ("Error: " <> api.show_error e <> "\n")) w in
      (w', ok failure)
  code_of (w, panic) = (w, panic)

  unfoldable pub main : Cli → Cmd env args ExitCode
  unfolding run
  main command w = code_of (run command w)
