-- ===== src/Cli/Stash.antt =====
-- The commands of cli/src/command.rs that list what the stock holds, and the history of a contract.
use Prim.Native.String.{◌++◌ as ◌<>◌}
use rgb.Base.{
  ℕ, ◌-◌, String, Option, none, some, List, [], ◌∷◌, Result, ltb, length, if◌then◌else◌,
  expect_some,
}
use rgb.Chain.{XWitnessId}
use rgb.Cli.Args.{Cmd, rgb_stock, rgb_wallet}
use rgb.Cli.Command.{IfaceStandard}
use rgb.Cli.Env.{Env, stock_files, RgbArgs}
use rgb.Cli.Io.{Line, out, World, Io, lift, try, ◌>>=◌, ◌>>◌, for_each, say, held, hold}
use rgb.Store.Stock as StockStore
use rgb.Store.Stock.{StoredStock}
use rgb.Store.Wallet as WalletStore
use rgb.Store.Wallet.{StoredWallet}
use rgb.Wallet.Errors.{WalletError, stock as stock_error}

-- the first of a list
abbrev pub first : {A : Type 0} → List A → Option A
first [] = none
first (a ∷ rest) = some a

-- the change of a state by an operation
pub data AmountChange : Type 0 where
  dec : ℕ → AmountChange
  unchanged : AmountChange
  inc : ℕ → AmountChange

pub record IfaceOp (Seal : Type 0) : Type 0 where
  pub state_change : AmountChange
  pub payers : List Seal
  pub beneficiaries : List Seal

-- The reads of a stock that are printed, each item as its text; `show` is `Display`.
pub record StashApi (env : Env) : Type 1 where
  pub taprets : env.Stock → Result (WalletError env.foreign) (List (String × String))
  pub schemata : env.Stock → Result env.StockError (List String)
  pub ifaces : env.Stock → Result env.StockError (List String)
  pub contracts : env.Stock → Result env.StockError (List String)
  pub contracts_by : IfaceStandard → env.Stock → Result env.StockError (List String)
  pub Seal : Type 0
  pub show_seal : Seal → String
  pub show_change : AmountChange → String
  pub show_witness : XWitnessId → String
  pub show_count : ℕ → String
  -- what a contract id and an interface name of the wallet's own methods are made from
  pub contract_id : ℕ → env.wallet_api.ContractId
  pub iface_ref : String → env.wallet_api.IfaceRef
  pub entries : env.wallet_api.History → List (XWitnessId × IfaceOp Seal)
  pub wallet_error : env.wallet_api.WalletError → WalletError env.foreign

module _ (env : Env) (args : RgbArgs) where
  open env use {
    foreign, Disk, Stock, Wallet, Config, StockError, to_string, wallet_api, wallet_files,
  }

  -- an error of the stock, kept as its text
  abbrev pub of_stock : StockError → WalletError foreign
  of_stock e = stock_error (to_string e)

  abbrev pub StockCmd : Type 0 → Type 0
  StockCmd A = Io (StoredStock String Stock × World Disk) (WalletError foreign) A

  abbrev pub WalletCmd : Type 0 → Type 0
  WalletCmd A = Io (StoredWallet String Wallet Stock × World Disk) (WalletError foreign) A

  -- a command with the stock, which is written back at its end if it was changed
  abbrev pub with_stock : {A : Type 0} → StockCmd A → Cmd env args A
  with_stock body = do s ← rgb_stock env args; hold (StockStore.drop (stock_files env)) s body

  -- a command with the wallet and its stock
  abbrev pub with_wallet : {A : Type 0} → Config → WalletCmd A → Cmd env args A
  with_wallet config body = do
    s ← rgb_wallet env args config
    hold (WalletStore.drop (stock_files env) wallet_files wallet_api {E = WalletError foreign}) s
        body

  -- what a read of the stock returns
  abbrev pub of_held : {A : Type 0} → (Stock → Result StockError A) → StockCmd A
  of_held call = do s ← held; try (call s.stock) of_stock

  -- `for info in … { print!("{info}") }`
  abbrev pub print_all :
      {X : Type 0} → List String → Io (X × World Disk) (WalletError foreign) (Unit {0})
  print_all infos = for_each infos (λ info. say (out info))

  abbrev pub list_all : (Stock → Result StockError (List String)) → StockCmd (Unit {0})
  list_all call = do infos ← of_held call; print_all infos

  module _ (api : StashApi env) where
    open api use {Seal, show_seal, show_change, show_witness, show_count}

    abbrev pub list_taprets : StockCmd (Unit {0})
    list_taprets = do
      s ← held
      all ← lift (api.taprets s.stock)
      for_each all (λ t. say (out (t.0 <> "\t" <> t.1 <> "\n")))

    unfoldable pub run_taprets : Cmd env args (Unit {0})
    run_taprets = with_stock list_taprets

    unfoldable pub run_schemata : Cmd env args (Unit {0})
    run_schemata = with_stock (list_all api.schemata)

    unfoldable pub run_interfaces : Cmd env args (Unit {0})
    run_interfaces = with_stock (list_all api.ifaces)

    abbrev pub contracts_of : Option IfaceStandard → Stock → Result StockError (List String)
    contracts_of none = api.contracts
    contracts_of (some standard) = api.contracts_by standard

    unfoldable pub run_contracts : Option IfaceStandard → Cmd env args (Unit {0})
    run_contracts standard = with_stock (list_all (contracts_of standard))

    -- the counterparty of an operation and how many more there are; `none` is `continue`
    unfoldable pub counterparty : IfaceOp Seal → Option (Option Seal × ℕ)
    counterparty op = elim op.state_change [
      | dec n ↦ some (first op.beneficiaries, length op.beneficiaries - 1)
      | unchanged ↦ none
      | inc n ↦ some (first op.payers, length op.payers - 1)
    ]

    abbrev show_more : ℕ → String
    show_more more = if ltb 0 more then " (+" <> show_count more <> ")" else ""

    abbrev show_party : Option Seal → String
    show_party none = "none"
    show_party (some seal) = show_seal seal

    -- the row of an operation, if it has one
    unfoldable pub history_row : XWitnessId × IfaceOp Seal → List Line
    unfolding counterparty
    history_row (id, op) = elim (counterparty op) [
      | none ↦ []
      | some (cparty, more) ↦
          out (
            show_change op.state_change
            <> "\t"
            <> show_party cparty
            <> show_more more
            <> "\t"
            <> show_witness id
            <> "\n")
          ∷ []
    ]

    unfoldable pub history_with : ℕ → String → WalletCmd (Unit {0})
    unfolding history_row
    history_with contract_id iface = do
      s ← held
      name ← lift (expect_some (env.type_name iface))
      h ←
          try
            (WalletStore.fungible_history (stock_files env) wallet_files wallet_api s
              (api.contract_id contract_id) (api.iface_ref name))
            api.wallet_error
      say (out "Amount\tCounterparty\tWitness Id\n")
      for_each (api.entries h) (λ entry. for_each (history_row entry) say)

    unfoldable pub run_history : Config → ℕ → String → Cmd env args (Unit {0})
    unfolding history_with
    run_history config contract_id iface = with_wallet config (history_with contract_id iface)
