-- ===== src/Cli/Files.antt =====
-- Files of consignments: `export`, `armor`, `validate` and `accept` of cli/src/command.rs, and what
-- `import` takes from other crates too.
use Prim.Native.String.{◌++◌ as ◌<>◌}
use rgb.Base.{ℕ, String, Bool, true, false, Option, none, some, List, Result, ok, err, panic}
use rgb.Base.Key.{nat_key}
use rgb.Chain.{XChain}
use rgb.Cli.Args.{Cmd, resolver}
use rgb.Cli.Env.{Env, stock_files, RgbArgs}
use rgb.Cli.Io.{
  Line, out, log, pure, lift, try, ◌>>=◌, ◌>>◌, inner, print, say, held, change, on_disk, read,
}
use rgb.Cli.Stash.{StockCmd, with_stock, of_stock}
use rgb.Resolver.Any.{AnyResolver, add_terminals}
use rgb.Store.Stock as StockStore
use rgb.Store.Stock.{StoredStock}
use rgb.Wallet.Errors.{io, load, custom, invalid_consignment}

-- A kit of interfaces, schemata, implementations and libraries, as far as it is printed. An id is a
-- number.
pub record Kit (Rest : Type 0) : Type 0 where
  pub kit_id : ℕ
  pub ifaces : List (ℕ × String)
  pub schemata : List (ℕ × String)
  -- the interface and the schema of each implementation
  pub iimpls : List (ℕ × ℕ)
  pub scripts : List ℕ
  pub types : ℕ
  pub rest : Rest

pub data UniversalFile (Kit Contract Transfer : Type 0) : Type 0 where
  kit : Kit → UniversalFile Kit Contract Transfer
  contract : Contract → UniversalFile Kit Contract Transfer
  transfer : Transfer → UniversalFile Kit Contract Transfer

pub record FileApi (env : Env) : Type 1 where
  pub Rest : Type 0
  pub Contract : Type 0
  pub Transfer : Type 0
  pub ValidKit : Type 0
  pub ValidContract : Type 0
  pub ValidTransfer : Type 0
  pub load_file :
      String → env.Disk → Result env.foreign.Load (UniversalFile (Kit Rest) Contract Transfer)
  pub load_transfer : String → env.Disk → Result env.foreign.Load Transfer
  pub save_contract : Contract → String → env.Disk → env.Disk × Result env.foreign.Io (Unit {0})
  pub show_file : UniversalFile (Kit Rest) Contract Transfer → String
  pub show_contract : Contract → String
  pub show_status : env.foreign.Status → String
  pub show_id : ℕ → String
  -- `{:-}` of an id
  pub show_short : ℕ → String
  pub consignment_id : Contract → String
  pub contract_id : Contract → String
  -- Validation, with the resolver as it is changed. A refusal has a status.
  pub validate_kit : Kit Rest → Result env.foreign.Status ValidKit
  pub validate_contract :
      Contract
      → AnyResolver env.Client env.Tx
      → Bool
      → AnyResolver env.Client env.Tx × Result env.foreign.Status ValidContract
  pub validate_transfer :
      Transfer
      → AnyResolver env.Client env.Tx
      → Bool
      → AnyResolver env.Client env.Tx × Result env.foreign.Status ValidTransfer
  pub validation_status : ValidTransfer → env.foreign.Status
  pub is_valid : env.foreign.Status → Bool
  -- the public witnesses of the bundles of a transfer
  pub witnesses : Transfer → List (XChain (Option env.Tx))
  -- what the stock takes
  pub import_kit : env.Stock → ValidKit → env.Stock × Result env.StockError (Unit {0})
  pub import_contract :
      env.Stock
      → ValidContract
      → AnyResolver env.Client env.Tx
      → env.Stock × Result env.StockError (Unit {0})
  pub accept_transfer :
      env.Stock
      → ValidTransfer
      → AnyResolver env.Client env.Tx
      → env.Stock × Result env.StockError (Unit {0})
  pub export_contract : env.Stock → ℕ → Result env.StockError Contract

module _ (env : Env) (args : RgbArgs) where
  open env use {
    foreign, Disk, Stock, StockError, client_api, txid, not_layer1, is_testnet, to_string,
  }

  -- a method on `&mut` of the stock, through `deref_mut`
  abbrev pub change_stock :
      {A : Type 0} → (Stock → Stock × Result StockError A) → StockCmd env args A
  change_stock call =
      change (λ s. StockStore.deref_mut (stock_files env) s call) (of_stock env args)

  module _ (api : FileApi env) where
    open api use {Rest, Contract, Transfer, show_id, show_short, show_status}

    abbrev put_contract : Contract → Option String → StockCmd env args (Unit {0})
    put_contract c (some file) = do
      inner (on_disk (api.save_contract c file) io)
      say (log ("Contract " <> api.show_contract c <> " exported to '" <> file <> "'\n"))
    put_contract c none = say (out (api.show_contract c <> "\n"))

    abbrev pub export_with : ℕ → Option String → StockCmd env args (Unit {0})
    export_with contract_id file = do
      s ← held
      c ← try (api.export_contract s.stock contract_id) (λ e. custom (to_string e))
      put_contract c file

    -- The flag `armored` is not read.
    unfoldable pub run_export : Bool → ℕ → Option String → Cmd env args (Unit {0})
    run_export armored contract_id file = with_stock env args (export_with contract_id file)

    -- `Armor`
    unfoldable pub run_convert : String → Cmd env args (Unit {0})
    run_convert file = do
      content ← read (api.load_file file) load
      print (out (api.show_file content <> "\n"))

    -- the status of a validation, accepted or refused
    abbrev pub status_of : Result foreign.Status api.ValidTransfer → Cmd env args foreign.Status
    status_of (ok valid) = pure (api.validation_status valid)
    status_of (err status) = pure status
    status_of panic = lift panic

    abbrev verdict : foreign.Status → Line
    verdict status = elim (api.is_valid status) [
      | true ↦ log "The provided consignment is valid\n"
      | false ↦ log (show_status status <> "\n")
    ]

    abbrev pub with_terminals :
        AnyResolver env.Client env.Tx → Transfer → AnyResolver env.Client env.Tx
    with_terminals r t = add_terminals client_api txid not_layer1 r (api.witnesses t)

    unfoldable pub run_validate : String → Cmd env args (Unit {0})
    run_validate file = do
      r ← resolver env args
      consignment ← read (api.load_transfer file) load
      let checked =
          api.validate_transfer consignment (with_terminals r consignment) (is_testnet args.network)
      status ← status_of checked.1
      print (verdict status)

    abbrev pub accept_with : String → StockCmd env args (Unit {0})
    accept_with file = do
      r ← inner (resolver env args)
      t ← inner (read (api.load_transfer file) load)
      let checked = api.validate_transfer t (with_terminals r t) (is_testnet args.network)
      valid ← try checked.1 invalid_consignment
      change_stock (λ s. api.accept_transfer s valid checked.0)
      say (log "Transfer accepted into the stash\n")

    -- The flag `force` is not read.
    unfoldable pub run_accept : Bool → String → Cmd env args (Unit {0})
    run_accept force file = with_stock env args (accept_with file)
