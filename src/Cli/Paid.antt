-- ===== src/Cli/Paid.antt =====
-- `transfer` and `consign` of cli/src/command.rs, and the files of the stock and of the wallet.
use mathlib.Core.Path.{subst}
use rgb.Base.{ℕ, ◌≡◌, ◌≢◌, refl, sym, String, Bool, Option, none, some, Result, ok, panic, map_err}
use rgb.Cli.Args.{rgb_wallet}
use rgb.Cli.Env.{Env, stock_files, RgbArgs}
use rgb.Cli.Io.{World, inner, on_disk, change, after}
use rgb.Cli.Durable.{FileLaws, AreStored, with_wallet_durable}
use rgb.Cli.Keeps.{Keeps, after-Keeps}
use rgb.Cli.Spend.{
  SpendApi, PsbtVer, Held, version_of, transfer_psbt, consign_with, run_consign, transfer_with,
  run_transfer, save_psbt, put_psbt,
}
use rgb.Cli.Stash.{WalletCmd}
use rgb.Store.Wallet as WalletStore
use rgb.Store.Wallet.{StoredWallet}
use rgb.Wallet.Errors.{WalletError, io, psbt_decode, custom}

module _ (env : Env) (args : RgbArgs) (api : SpendApi env) where
  open env use {foreign, Disk, Stock, Wallet, Config, wallet_api, wallet_files}
  open wallet_api use {RgbInvoice, Psbt}

  -- the held value is as it was
  abbrev IsHeld : Held env args api → Held env args api × World Disk → Type 0
  IsHeld s p = p.0 ≡ s

  put_psbt-Keeps :
      (s : Held env args api) (psbt : Psbt) (ver : PsbtVer) (psbt_file : Option String)
      → Keeps (IsHeld s) (put_psbt env args api psbt ver psbt_file)
  unfolding save_psbt
  put_psbt-Keeps s psbt ver (some file_name) p h =
      after-Keeps (IsHeld s) (inner (on_disk (api.create_file file_name) io) p) _ h (λ done q k. k)
  put_psbt-Keeps s psbt ver none p h = h

  -- the stored wallet after the payment of a transfer
  abbrev paid : RgbInvoice → ℕ → ℕ → Held env args api → Held env args api
  paid invoice fee sats s =
      (WalletStore.pay (stock_files env) wallet_files wallet_api s invoice (api.params fee sats)).0

  transfer_with-Keeps :
      (as_v2 : Bool) (sats : ℕ) (invoice : RgbInvoice) (fee : ℕ) (out_file : String)
      (psbt_file : Option String) (s : Held env args api) (w : World Disk)
      → (transfer_with env args api as_v2 sats invoice fee out_file psbt_file (s, w)).0.0
        ≡ paid invoice fee sats s
  unfolding transfer_with
  transfer_with-Keeps as_v2 sats invoice fee out_file psbt_file s w =
      let s' = paid invoice fee sats s in
      after-Keeps (IsHeld s')
        (change
          (λ s.
            WalletStore.pay (stock_files env) wallet_files wallet_api s invoice
              (api.params fee sats))
          (λ e. custom (api.show_pay e)) (s, w))
        _ refl
        (λ paid p h.
          after-Keeps (IsHeld s') (inner (on_disk (api.save_transfer paid.2 out_file) io) p) _ h
            (λ done. put_psbt-Keeps s' paid.0 (version_of env args api as_v2) psbt_file))

  -- After a `transfer` that does not panic, whether it ends with an error or not, the files of the
  -- stock and of the wallet hold what the payment made of them. The wallet was opened and has a
  -- file, apart from the stock's, and files keep what was stored.
  pub transfer_durable :
      (config : Config) (path : String) (s : Held env args api) (w w1 : World Disk) (as_v2 : Bool)
      (sats : ℕ) (invoice : RgbInvoice) (fee : ℕ) (out_file : String) (psbt_file : Option String)
      → FileLaws env
      → rgb_wallet env args config w ≡ (w1, ok s)
      → s.wallet_path ≡ some path
      → s.stock_path ≢ path
      → (run_transfer env args api config as_v2 sats invoice fee out_file psbt_file w).1 ≢ panic
      → AreStored env args
          (paid invoice fee sats s)
          path
          (run_transfer env args api config as_v2 sats invoice fee out_file psbt_file w).0.disk
  unfolding run_transfer WalletStore.pay
  transfer_durable config path s w w1 as_v2 sats invoice fee out_file psbt_file laws opened wp ne =
      with_wallet_durable env args config path s (paid invoice fee sats s) w w1
        (transfer_with env args api as_v2 sats invoice fee out_file psbt_file) laws opened
        (transfer_with-Keeps as_v2 sats invoice fee out_file psbt_file s w1)
        (record { stock_dirty = refl; wallet_dirty = refl; wallet_path = wp; apart = ne })

  save_psbt-Keeps :
      (s : Held env args api) (psbt : Psbt) (ver : PsbtVer) (file_name : String)
      → Keeps (IsHeld s) (save_psbt env args api psbt ver file_name)
  unfolding save_psbt
  save_psbt-Keeps s psbt ver file_name p h =
      after-Keeps (IsHeld s) (inner (on_disk (api.create_file file_name) io) p) _ h (λ done q k. k)

  -- the stored wallet after the transfer of a consignment
  abbrev consigned : RgbInvoice → Psbt → Held env args api → Held env args api
  consigned invoice psbt s =
      (WalletStore.transfer (stock_files env) wallet_files wallet_api s invoice psbt).0

  consign_with-Keeps :
      (invoice : RgbInvoice) (psbt_name out_file : String) (bytes : api.Bytes) (psbt : Psbt)
      (s : Held env args api) (w : World Disk)
      → api.open_file psbt_name w.disk ≡ ok bytes
      → api.decode bytes ≡ ok psbt
      → (consign_with env args api invoice psbt_name out_file (s, w)).0.0 ≡ consigned invoice psbt s
  unfolding consign_with
  consign_with-Keeps invoice psbt_name out_file bytes psbt s w opened decoded =
      let s' = consigned invoice psbt s in
      at-ok io _ opened (
        at-ok psbt_decode _ decoded (
          after-Keeps (IsHeld s')
            (change (transfer_psbt env args api invoice psbt) (λ e. custom (api.show_completion e))
              (s, w))
            _ refl
            (λ done p h.
              after-Keeps (IsHeld s')
                (save_psbt env args api done.0 (api.version done.0) psbt_name p)
                (λ _. inner (on_disk (api.save_transfer done.1 out_file) io))
                (save_psbt-Keeps s' done.0 (api.version done.0) psbt_name p h) (λ _ q k. k))))
    where
      at-ok :
          {E' A : Type 0} {a : A} {r : Result E' A} (convert : E' → WalletError foreign)
          (next : A → WalletCmd env args (Unit {0}))
          → r ≡ ok a
          → (next a (s, w)).0.0 ≡ consigned invoice psbt s
          → (after ((s, w), map_err r convert) next).0.0 ≡ consigned invoice psbt s
      at-ok convert next e h =
          subst (λ r. (after ((s, w), map_err r convert) next).0.0 ≡ consigned invoice psbt s)
            (sym e) h

  -- After a `consign` that does not panic, whether it ends with an error or not, the files of the
  -- stock and of the wallet hold what the transfer made of them, if the file of the PSBT opens and
  -- is decoded. The wallet was opened and has a file, apart from the stock's, and files keep what
  -- was stored.
  pub consign_durable :
      (config : Config) (path : String) (s : Held env args api) (w w1 : World Disk)
      (invoice : RgbInvoice) (psbt_name out_file : String) (bytes : api.Bytes) (psbt : Psbt)
      → FileLaws env
      → rgb_wallet env args config w ≡ (w1, ok s)
      → api.open_file psbt_name w1.disk ≡ ok bytes
      → api.decode bytes ≡ ok psbt
      → s.wallet_path ≡ some path
      → s.stock_path ≢ path
      → (run_consign env args api config invoice psbt_name out_file w).1 ≢ panic
      → AreStored env args
          (consigned invoice psbt s)
          path
          (run_consign env args api config invoice psbt_name out_file w).0.disk
  unfolding run_consign WalletStore.transfer
  consign_durable config path s w w1 invoice psbt_name out_file bytes psbt laws opened o d wp ne =
      with_wallet_durable env args config path s (consigned invoice psbt s) w w1
        (consign_with env args api invoice psbt_name out_file) laws opened
        (consign_with-Keeps invoice psbt_name out_file bytes psbt s w1 o d)
        (record { stock_dirty = refl; wallet_dirty = refl; wallet_path = wp; apart = ne })
