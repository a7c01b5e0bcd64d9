-- ===== src/Cli/Spend.antt =====
-- `prepare`, `consign` and `transfer` of cli/src/command.rs: the methods of a stored wallet between
-- files. A file is opened and read, or created and written.
use Prim.Native.String.{◌++◌ as ◌<>◌}
use rgb.Base.{ℕ, String, Bool, true, false, Option, none, some, Result, ok, err, panic}
use rgb.Cli.Args.{Cmd}
use rgb.Cli.Env.{Env, stock_files, RgbArgs}
use rgb.Cli.Io.{out, try, ◌>>=◌, ◌>>◌, inner, say, change, on_disk, read}
use rgb.Cli.Stash.{WalletCmd, with_wallet}
use rgb.Store.Wallet as WalletStore
use rgb.Store.Wallet.{StoredWallet}
use rgb.Wallet.Errors.{io, psbt_decode, custom}

pub data PsbtVer : Type 0 where
  v0 v2 : PsbtVer

-- PSBT files and consignment files
pub record SpendApi (env : Env) : Type 1 where
  pub Bytes : Type 0
  pub open_file : String → env.Disk → Result env.foreign.Io Bytes
  pub create_file : String → env.Disk → env.Disk × Result env.foreign.Io (Unit {0})
  pub decode : Bytes → Result env.foreign.PsbtDecode env.wallet_api.Psbt
  -- the version is that of the argument, or that of the PSBT
  pub encode :
      env.wallet_api.Psbt
      → PsbtVer
      → String
      → env.Disk
      → env.Disk × Result env.foreign.Io (Unit {0})
  pub version : env.wallet_api.Psbt → PsbtVer
  pub show_psbt : PsbtVer → env.wallet_api.Psbt → String
  pub save_transfer :
      env.wallet_api.Transfer → String → env.Disk → env.Disk × Result env.foreign.Io (Unit {0})
  pub params : ℕ → ℕ → env.wallet_api.TransferParams
  -- the errors of the wallet's methods, as texts
  pub show_composition : env.wallet_api.CompositionError → String
  pub show_completion : env.wallet_api.CompletionError → String
  pub show_pay : env.wallet_api.PayError → String

module _ (env : Env) (args : RgbArgs) (api : SpendApi env) where
  open env use {foreign, Disk, Stock, Wallet, Config, wallet_api, wallet_files}
  open wallet_api use {RgbInvoice, Psbt}

  abbrev pub Held : Type 0
  Held = StoredWallet String Wallet Stock

  abbrev pub version_of : Bool → PsbtVer
  version_of true = PsbtVer.v2
  version_of false = PsbtVer.v0

  -- `File::create` and `encode`
  unfoldable pub save_psbt : Psbt → PsbtVer → String → WalletCmd env args (Unit {0})
  save_psbt psbt ver file_name = do
    inner (on_disk (api.create_file file_name) io)
    inner (on_disk (api.encode psbt ver file_name) io)

  abbrev pub put_psbt : Psbt → PsbtVer → Option String → WalletCmd env args (Unit {0})
  put_psbt psbt ver (some file_name) = save_psbt psbt ver file_name
  put_psbt psbt ver none = say (out (api.show_psbt ver psbt <> "\n"))

  unfoldable pub prepare_with :
      Bool → ℕ → RgbInvoice → ℕ → Option String → WalletCmd env args (Unit {0})
  unfolding save_psbt
  prepare_with as_v2 sats invoice fee psbt_file = do
    made ←
        change
          (λ s.
            WalletStore.construct_psbt (stock_files env) wallet_files wallet_api s invoice
              (api.params fee sats))
          (λ e. custom (api.show_composition e))
    put_psbt made.0 (version_of as_v2) psbt_file

  unfoldable pub run_prepare :
      Config → Bool → ℕ → RgbInvoice → ℕ → Option String → Cmd env args (Unit {0})
  unfolding prepare_with
  run_prepare config as_v2 sats invoice fee psbt_file =
      with_wallet env args config (prepare_with as_v2 sats invoice fee psbt_file)

  abbrev with_psbt :
      Psbt
      → Result wallet_api.CompletionError wallet_api.Transfer
      → Result wallet_api.CompletionError (Psbt × wallet_api.Transfer)
  with_psbt p (ok t) = ok (p, t)
  with_psbt p (err e) = err e
  with_psbt p panic = panic

  -- `transfer` on a PSBT that is passed by `&mut`
  abbrev pub transfer_psbt :
      RgbInvoice
      → Psbt
      → Held
      → Held × Result wallet_api.CompletionError (Psbt × wallet_api.Transfer)
  transfer_psbt invoice psbt s =
      let (s', psbt', r) =
        WalletStore.transfer (stock_files env) wallet_files wallet_api s invoice psbt in
      (s', with_psbt psbt' r)

  unfoldable pub consign_with : RgbInvoice → String → String → WalletCmd env args (Unit {0})
  unfolding save_psbt
  consign_with invoice psbt_name out_file = do
    bytes ← inner (read (api.open_file psbt_name) io)
    psbt ← try (api.decode bytes) psbt_decode
    done ← change (transfer_psbt invoice psbt) (λ e. custom (api.show_completion e))
    save_psbt done.0 (api.version done.0) psbt_name
    inner (on_disk (api.save_transfer done.1 out_file) io)

  unfoldable pub run_consign : Config → RgbInvoice → String → String → Cmd env args (Unit {0})
  unfolding consign_with
  run_consign config invoice psbt_name out_file =
      with_wallet env args config (consign_with invoice psbt_name out_file)

  unfoldable pub transfer_with :
      Bool → ℕ → RgbInvoice → ℕ → String → Option String → WalletCmd env args (Unit {0})
  unfolding save_psbt
  transfer_with as_v2 sats invoice fee out_file psbt_file = do
    paid ←
        change
          (λ s.
            WalletStore.pay (stock_files env) wallet_files wallet_api s invoice
              (api.params fee sats))
          (λ e. custom (api.show_pay e))
    inner (on_disk (api.save_transfer paid.2 out_file) io)
    put_psbt paid.0 (version_of as_v2) psbt_file

  unfoldable pub run_transfer :
      Config → Bool → ℕ → RgbInvoice → ℕ → String → Option String → Cmd env args (Unit {0})
  unfolding transfer_with
  run_transfer config as_v2 sats invoice fee out_file psbt_file =
      with_wallet env args config (transfer_with as_v2 sats invoice fee out_file psbt_file)
