-- ===== src/Cli/Issue.antt =====
-- `issue` and `invoice` of cli/src/command.rs.
use Prim.Native.String.{◌++◌ as ◌<>◌}
use rgb.Base.{ℕ, String, Bool, true, false, Option, none, some, List, Result, err, expect_some}
use rgb.Chain.{XChain, bitcoin, Outpoint}
use rgb.Cli.Args.{Cmd, resolver}
use rgb.Cli.Env.{Env, stock_files, RgbArgs}
use rgb.Cli.Files.{FileApi, change_stock}
use rgb.Cli.Genesis.{IssueApi, compose}
use rgb.Cli.Io.{out, log, pure, lift, try, ◌>>=◌, ◌>>◌, inner, say, held, change, read}
use rgb.Cli.Stash.{first, StockCmd, with_stock, with_wallet, WalletCmd, of_stock}
use rgb.Descriptor.Keychain.{CloseMethod, contains_rgb, rgb_chain, to_keychain}
use rgb.Pay.Api.{Beneficiary, blinded_seal, witness_vout}
use rgb.Store.Wallet as WalletStore
use rgb.Wallet.Errors.{io, yaml as yaml_error, custom}

-- What an invoice is made of. The network is that of the wallet.
pub record InvoiceApi (env : Env) : Type 1 where
  -- the outpoints that `coinselect` chooses for an amount, among those whose keychain passes
  pub coinselect : env.Wallet → ℕ → (ℕ → Bool) → List Outpoint
  pub Network : Type 0
  pub network : env.Wallet → Network
  pub Address : Type 0
  -- the next address of a keychain
  pub next_address : env.Wallet → ℕ → Option Address
  pub seal_close_method : env.Wallet → CloseMethod
  pub GraphSeal : Type 0
  -- `new_random`, on a number for what is drawn
  pub new_random : CloseMethod → Outpoint → ℕ → GraphSeal
  pub store_secret_seal : env.Stock → XChain GraphSeal → env.Stock × Result env.StockError Bool
  pub Secret : Type 0
  -- `to_secret_seal` and `as_reduced_unsafe`
  pub secret_seal : XChain GraphSeal → Secret
  -- the text of an invoice for a contract, an interface and an amount
  pub show_invoice : Network → Beneficiary Secret Address → ℕ → String → ℕ → String

module _ (env : Env) (args : RgbArgs) where
  open env use {foreign, Disk, Stock, Wallet, Config, wallet_api, wallet_files}

  module _ (files : FileApi env) (api : IssueApi env files.ValidContract) where
    abbrev pub issue_with : ℕ → String → String → StockCmd env args (Unit {0})
    issue_with schema_id issuer contract = do
      s ← held
      text ← inner (read (api.open_file contract) io)
      code ← try (api.from_reader text) yaml_error
      c ← lift (compose env api s.stock schema_id issuer code)
      r ← inner (resolver env args)
      change_stock env args (λ stock. files.import_contract stock c r)
      say (
          log (
            "A new contract "
            <> api.contract_id c
            <> " is issued and added to the stash.\nUse `export` command to export the contract.\n"))

    unfoldable pub run_issue : ℕ → String → String → Cmd env args (Unit {0})
    run_issue schema_id issuer contract = with_stock env args (issue_with schema_id issuer contract)

  module _ (api : InvoiceApi env) where
    open api use {Address, Secret, seal_close_method}

    -- an output of the wallet is blinded; its secret seal is stored
    unfoldable pub blinded : ℕ → Outpoint → WalletCmd env args (Beneficiary Secret Address)
    blinded draw outpoint = do
      s ← held
      let seal = bitcoin (api.new_random (seal_close_method s.wallet) outpoint draw)
      stored ←
          change
            (λ h.
              WalletStore.stock_mut (stock_files env) wallet_files wallet_api h
                (λ stock. api.store_secret_seal stock seal))
            (of_stock env args)
      pure (blinded_seal (api.secret_seal seal))

    unfoldable pub by_address : WalletCmd env args (Beneficiary Secret Address)
    by_address = do
      s ← held
      address ← lift (expect_some (api.next_address s.wallet (to_keychain rgb_chain)))
      pure (witness_vout address (seal_close_method s.wallet))

    abbrev beneficiary_of :
        ℕ → Bool → Option Outpoint → WalletCmd env args (Beneficiary Secret Address)
    beneficiary_of draw true outpoint = by_address
    beneficiary_of draw false (some outpoint) = blinded draw outpoint
    beneficiary_of draw false none =
        lift (err (custom "blinded invoice requested but no suitable outpoint is available"))

    unfoldable pub invoice_with : ℕ → Bool → ℕ → String → ℕ → WalletCmd env args (Unit {0})
    unfolding blinded by_address
    invoice_with draw address_based contract_id iface value = do
      name ← lift (expect_some (env.type_name iface))
      s ← held
      b ← beneficiary_of draw address_based (first (api.coinselect s.wallet 0 contains_rgb))
      say (out (api.show_invoice (api.network s.wallet) b contract_id name value <> "\n"))

    unfoldable pub run_invoice : Config → ℕ → Bool → ℕ → String → ℕ → Cmd env args (Unit {0})
    unfolding invoice_with
    run_invoice config draw address_based contract_id iface value =
        with_wallet env args config (invoice_with draw address_based contract_id iface value)
