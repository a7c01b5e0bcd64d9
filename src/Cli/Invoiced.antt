-- ===== src/Cli/Invoiced.antt =====
-- The seal of a blinded invoice: `invoice` of cli/src/command.rs, and the stock's file.
use rgb.Base.{ℕ, ◌≡◌, ◌≢◌, refl, String, true, false, some, ok, panic}
use rgb.Chain.{XChain, bitcoin, Outpoint}
use rgb.Cli.Args.{rgb_wallet}
use rgb.Cli.Durable.{FileLaws, with_wallet_stock_durable}
use rgb.Cli.Env.{Env, stock_files, RgbArgs}
use rgb.Cli.Io.{World, change}
use rgb.Cli.Issue.{InvoiceApi, invoice_with, run_invoice, blinded}
use rgb.Cli.Keeps.{after-Keeps}
use rgb.Cli.Stash.{first, of_stock}
use rgb.Descriptor.Keychain.{contains_rgb}
use rgb.Store.Wallet as WalletStore
use rgb.Store.Wallet.{StoredWallet}

module _ (env : Env) (args : RgbArgs) (api : InvoiceApi env) where
  open env use {foreign, Disk, Stock, Wallet, Config, wallet_api, wallet_files}

  -- the secret seal on an outpoint of a wallet
  abbrev pub seal_on : Wallet → Outpoint → ℕ → XChain api.GraphSeal
  seal_on wallet outpoint draw =
      bitcoin (api.new_random (api.seal_close_method wallet) outpoint draw)

  -- the stored wallet with the seal in its stock
  abbrev sealed : ℕ → Outpoint → StoredWallet String Wallet Stock → StoredWallet String Wallet Stock
  sealed draw outpoint s = record s {
    stock = (api.store_secret_seal s.stock (seal_on s.wallet outpoint draw)).0;
    stock_dirty = true;
  }

  blinded-sealed :
      (draw : ℕ) (outpoint : Outpoint) (s : StoredWallet String Wallet Stock) (w : World Disk)
      → (blinded env args api draw outpoint (s, w)).0.0 ≡ sealed draw outpoint s
  unfolding blinded WalletStore.stock_mut
  blinded-sealed draw outpoint s w =
      after-Keeps (λ p. p.0 ≡ sealed draw outpoint s)
        (change
          (λ h.
            WalletStore.stock_mut (stock_files env) wallet_files wallet_api h
              (λ stock. api.store_secret_seal stock (seal_on s.wallet outpoint draw)))
          (of_stock env args) (s, w))
        _ refl (λ stored p h. h)

  invoice_with-sealed :
      (draw contract_id : ℕ) (iface name : String) (value : ℕ) (outpoint : Outpoint)
      (s : StoredWallet String Wallet Stock) (w : World Disk)
      → env.type_name iface ≡ some name
      → first (api.coinselect s.wallet 0 contains_rgb) ≡ some outpoint
      → (invoice_with env args api draw false contract_id iface value (s, w)).0.0
        ≡ sealed draw outpoint s
  unfolding invoice_with WalletStore.stock_mut
  invoice_with-sealed draw contract_id iface name value outpoint s w named selected = rw (named) (
      rw (selected) (
        after-Keeps (λ p. p.0 ≡ sealed draw outpoint s) (blinded env args api draw outpoint (s, w))
          _ (blinded-sealed draw outpoint s w) (λ b p h. h)))

  -- A blinded invoice that does not panic leaves in the stock's file the stock with the secret
  -- seal on the outpoint that the wallet selects first, if it selects one and the interface has a
  -- type name. The wallet was opened with no file or one apart from the stock's, and files keep
  -- what was stored.
  pub invoice_sealed :
      (config : Config) (draw contract_id : ℕ) (iface name : String) (value : ℕ)
      (outpoint : Outpoint) (s : StoredWallet String Wallet Stock) (w w1 : World Disk)
      → FileLaws env
      → rgb_wallet env args config w ≡ (w1, ok s)
      → ((path : String) → s.wallet_path ≡ some path → path ≢ s.stock_path)
      → env.type_name iface ≡ some name
      → first (api.coinselect s.wallet 0 contains_rgb) ≡ some outpoint
      → (run_invoice env args api config draw false contract_id iface value w).1 ≢ panic
      → (stock_files env).load s.stock_path
          (run_invoice env args api config draw false contract_id iface value w).0.disk
        ≡ some (api.store_secret_seal s.stock (seal_on s.wallet outpoint draw)).0
  unfolding run_invoice
  invoice_sealed config draw contract_id iface name value outpoint s w w1 laws opened apart named
        selected =
      with_wallet_stock_durable env args config s (sealed draw outpoint s) w w1
        (invoice_with env args api draw false contract_id iface value) laws opened
        (invoice_with-sealed draw contract_id iface name value outpoint s w1 named selected)
        (record { stock_dirty = refl; apart = apart })
