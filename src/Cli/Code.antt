-- ===== src/Cli/Code.antt =====
-- The exit code of cli/src/main.rs.
use Prim.Native.String.{◌++◌ as ◌<>◌}
use rgb.Base.{ℕ, ◌≡◌, ◌≢◌, ◌↔◌, refl, ap, Result, ok, err, panic, arith}
use rgb.Cli.Env.{Env, RgbArgs}
use rgb.Cli.Exec.{ExecApi, Cli, ExitCode, success, failure, code_of, run, main}
use rgb.Cli.Io.{World, log, print}
use rgb.Wallet.Errors.{WalletError}

module _ (env : Env) (args : RgbArgs) (api : ExecApi env) (config : env.Config) (draw : ℕ) where
  -- the world with the text of an error printed
  abbrev pub reported : WalletError env.foreign → World env.Disk → World env.Disk
  reported e w =
      (print {E = WalletError env.foreign} (log ("Error: " <> api.show_error e <> "\n")) w).0

  -- the outcome of `main`, from that of the command
  abbrev pub Reports :
      World env.Disk × Result (WalletError env.foreign) (Unit {0})
      → World env.Disk × Result (WalletError env.foreign) ExitCode
      → Type 0
  Reports t m =
      ((t.1 ≡ ok tt) ↔ (m ≡ (t.0, ok success)))
      × ((e : WalletError env.foreign) → t.1 ≡ err e → m ≡ (reported e t.0, ok failure))
      × ((t.1 ≡ panic) ↔ (m.1 ≡ panic))

  not_success :
      (x : WalletError env.foreign) (w : World env.Disk)
      → code_of env args api config draw (w, err x) ≢ (w, ok success)
  not_success x w e = absurd (ground arith)

  same_error :
      (x y : WalletError env.foreign) (w : World env.Disk)
      → ◌≡◌ {A = Result (WalletError env.foreign) (Unit {0})} (err x) (err y)
      → code_of env args api config draw (w, err x) ≡ (reported y w, ok failure)
  same_error x y w e = let q : x ≡ y = ground arith in ap (λ z. (reported z w, ok failure)) q

  code_of-Reports :
      (t : World env.Disk × Result (WalletError env.foreign) (Unit {0}))
      → Reports t (code_of env args api config draw t)
  code_of-Reports (w, ok done) = (
    (λ e. refl, λ e. refl),
    λ x e. absurd (ground arith),
    (λ e. absurd (ground arith), λ e. absurd (ground arith)),
  )
  code_of-Reports (w, err x) = (
    (λ e. absurd (ground arith), λ e. absurd (not_success x w e)),
    λ y e. same_error x y w e,
    (λ e. absurd (ground arith), λ e. absurd (ground arith)),
  )
  code_of-Reports (w, panic) = (
    (λ e. absurd (ground arith), λ e. absurd (ground arith)),
    λ y e. absurd (ground arith),
    (λ e. refl, λ e. refl),
  )

  -- `main` ends with success exactly if the command returned without an error, and changes nothing
  -- then; after an error it prints the error and ends with failure; it panics exactly if the command
  -- did.
  pub main-Reports :
      (command : Cli env args api config draw) (w : World env.Disk)
      → Reports (run env args api config draw command w) (main env args api config draw command w)
  unfolding main
  main-Reports command w = code_of-Reports (run env args api config draw command w)
