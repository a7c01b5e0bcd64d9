-- ===== src/Cli/State.antt =====
-- `state` of cli/src/command.rs: the global and the owned state of a contract, with the outputs that
-- the wallet owns told from the others.
use Prim.Native.String.{◌++◌ as ◌<>◌}
use rgb.Base.{
  ℕ, String, Bool, true, false, Option, none, some, List, [], ◌∷◌, ◌++◌, Result, ok, err, panic,
  expect_some, if◌then◌else◌,
}
use rgb.Chain.{XOutpoint}
use rgb.Cli.Args.{Cmd, load_stock, rgb_wallet_from_stock}
use rgb.Cli.Env.{Env, stock_files, RgbArgs}
use rgb.Cli.Io.{Line, out, World, lift, try, ◌>>=◌, ◌>>◌, for_each, inner, print, hold}
use rgb.Cli.Stash.{of_stock}
use rgb.Store.Wallet as WalletStore
use rgb.Store.Wallet.{StoredWallet}
use rgb.Wallet.Errors.{WalletError}

-- an allocation as it is printed, with the outpoint of its seal
pub record Owned : Type 0 where
  pub state : String
  pub seal : String
  pub outpoint : XOutpoint
  pub witness : String

pub record StateApi (env : Env) : Type 1 where
  pub Contract : Type 0
  pub contract_iface : env.Stock → ℕ → String → Result env.StockError Contract
  pub global_state : Contract → List String
  pub global : Contract → String → Option (List String)
  pub assignments : Contract → List String
  -- the allocations of a name whose outpoints pass, of each kind
  pub fungible : Contract → String → (XOutpoint → Bool) → Option (List Owned)
  pub data_of : Contract → String → (XOutpoint → Bool) → Option (List Owned)
  pub attachments : Contract → String → (XOutpoint → Bool) → Option (List Owned)
  pub rights : Contract → String → (XOutpoint → Bool) → Option (List Owned)
  -- the filter of the wallet
  pub include_outpoint : env.Wallet → XOutpoint → Bool

pub data Filter (W : Type 0) : Type 0 where
  wallet : W → Filter W
  wallet_all : W → Filter W
  no_wallet : Filter W

module _ (env : Env) (args : RgbArgs) (api : StateApi env) where
  open env use {foreign, Disk, Stock, Wallet, Config, wallet_api, wallet_files}
  open api use {Contract}

  abbrev pub Held : Type 0
  Held = StoredWallet String Wallet Stock

  unfoldable pub include_outpoint : Filter Held → XOutpoint → Bool
  include_outpoint (wallet w) o = api.include_outpoint w.wallet o
  include_outpoint (wallet_all w) o = true
  include_outpoint no_wallet o = true

  abbrev pub unknown : String
  unknown = "-- owner unknown"

  unfoldable pub comment : Filter Held → XOutpoint → String
  comment (wallet w) o = if api.include_outpoint w.wallet o then "" else unknown
  comment (wallet_all w) o = if api.include_outpoint w.wallet o then "" else unknown
  comment no_wallet o = unknown

  abbrev value_lines : String → List String → List Line
  value_lines name [] = []
  value_lines name (value ∷ rest) =
      out ("  " <> name <> " := " <> value <> "\n") ∷ value_lines name rest

  unfoldable pub global_lines : Contract → List String → List Line
  global_lines contract [] = []
  global_lines contract (name ∷ rest) = elim (api.global contract name) [
    | none ↦ global_lines contract rest
    | some values ↦ value_lines name values ++ global_lines contract rest
  ]

  abbrev shown : Option String → String → String
  shown none state = "   "
  shown (some text) state = text <> state <> ", "

  -- the allocations of one kind; `before` is what stands before the state, `none` if none is shown
  unfoldable pub owned_lines : Filter Held → Option String → List Owned → List Line
  unfolding comment
  owned_lines f before [] = []
  owned_lines f before (o ∷ rest) =
      out (
        shown before o.state
        <> "utxo="
        <> o.seal
        <> ", witness="
        <> o.witness
        <> " "
        <> comment f o.outpoint
        <> "\n")
      ∷ owned_lines f before rest

  abbrev kind_lines : Filter Held → Option String → Option (List Owned) → List Line
  kind_lines f before none = []
  kind_lines f before (some allocations) = owned_lines f before allocations

  unfoldable pub assignment_lines : Contract → Filter Held → List String → List Line
  unfolding include_outpoint owned_lines
  assignment_lines contract f [] = []
  assignment_lines contract f (name ∷ rest) =
      let pass = include_outpoint f in
      out ("  " <> name <> ":\n")
      ∷ (kind_lines f (some "    value=") (api.fungible contract name pass)
          ++ (kind_lines f (some "   data=") (api.data_of contract name pass)
              ++ (kind_lines f (some "   file=") (api.attachments contract name pass)
                  ++ (kind_lines f none (api.rights contract name pass)
                      ++ assignment_lines contract f rest))))

  -- all that is printed once the filter is known
  unfoldable pub state_lines : Contract → Filter Held → List Line
  unfolding global_lines assignment_lines
  state_lines contract f =
      out "\nGlobal:\n"
      ∷ (global_lines contract (api.global_state contract)
          ++ out "\nOwned:\n" ∷ assignment_lines contract f (api.assignments contract))

  abbrev pub filter_of : Bool → Held → Filter Held
  filter_of true w = wallet_all w
  filter_of false w = wallet w

  -- the wallet is the filter's, and is dropped with it
  abbrev pub listed : Bool → Contract → Result (WalletError foreign) Held → Cmd env args (Unit {0})
  listed all contract panic = lift panic
  listed all contract (ok w) =
      hold (WalletStore.drop (stock_files env) wallet_files wallet_api {E = WalletError foreign}) w
        (for_each (state_lines contract (filter_of all w)) (λ line. inner (print line)))
  listed all contract (err e) = do
    print (out "no wallets found\n")
    for_each (state_lines contract no_wallet) print

  -- the `match` on what `rgb_wallet_from_stock` returned
  abbrev pub with_found :
      World Disk × Result (WalletError foreign) Held
      → Bool
      → Contract
      → World Disk × Result (WalletError foreign) (Unit {0})
  with_found (w, r) all contract = listed all contract r w

  unfoldable pub run_state : Config → Bool → ℕ → String → Cmd env args (Unit {0})
  unfolding state_lines
  run_state config all contract_id iface = do
    stock ← load_stock env args args.base_dir
    name ← lift (expect_some (env.type_name iface))
    contract ← try (api.contract_iface stock contract_id name) (of_stock env args)
    λ w. with_found (rgb_wallet_from_stock env args config stock w) all contract
