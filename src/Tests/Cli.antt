-- ===== src/Tests/Cli.antt =====
-- The command line over the small environment.
use rgb.Base.{String, false, ℕ, ◌≡◌, ◌≢◌, refl, true, false, none, some, [], ok, arith}
use rgb.Cli.Accepted.{IsAccepted, accept_valid}
use rgb.Cli.Connected.{IsConnected}
use rgb.Cli.Imported.{Imported, import_valid}
use rgb.Cli.Args.{
  rgb_stock, rgb_wallet, rgb_wallet_from_stock, load_stock, create_stock, resolver, chosen,
}
use rgb.Cli.Command.{validate}
use rgb.Cli.Completes.{accept_completes}
use rgb.Cli.Ends.{Completes}
use rgb.Cli.Durable.{AreStored}
use rgb.Cli.Env.{stock_files}
use rgb.Cli.Exec.{exec}
use rgb.Cli.Files.{run_accept}
use rgb.Cli.Import.{run_import, import_a_contract}
use rgb.Cli.Io.{World}
use rgb.Base.{panic}
use rgb.Cli.Genesis.{compose, add_globals, add_global, add_assignments, add_assignment, add_owned}
use rgb.Cli.Invoiced.{invoice_sealed}
use rgb.Cli.Issue.{run_issue, run_invoice, invoice_with, blinded}
use rgb.Cli.Issued.{IsIssued, issue_composed}
use rgb.Cli.Loaded.{load_stock-holds}
use rgb.Cli.Paid.{transfer_durable, consign_durable}
use rgb.Cli.ReadOnly.{exec_read_only}
use rgb.Cli.Settled.{EndsWith}
use rgb.Cli.Spend.{run_transfer, run_consign, transfer_with, consign_with, save_psbt}
use rgb.Resolver.Any as Any
use rgb.Resolver.Any.{AnyResolver}
use rgb.Store.Stock as StockStore
use rgb.Store.Wallet as WalletStore
use rgb.Tests.CliEnv.{
  env, args, file_laws, stock_laws, world, there, readable, stock_wallet, spend, files, TestDisk,
}
use rgb.Store.Wallet.{StoredWallet}
use rgb.Tests.CliExec.{api, issue_api, invoice_api}

exec_read_only_example : (exec env args api 20 0 (validate "file") world).0.disk ≡ world.disk
exec_read_only_example = exec_read_only env args api 20 0 world (validate "file") readable refl

-- the payment ends with an error, with its changes of the wallet and of the stock
transfer_durable_example :
    let end = run_transfer env args spend 20 true 6 5 1 "out" none world in
    AreStored env args
      (record {
        stock_path = "stock";
        wallet_path = some "wallet";
        stock = 16;
        wallet = 25;
        stock_dirty = true;
        wallet_dirty = true;
      })
      "wallet"
      end.0.disk
unfolding run_transfer transfer_with rgb_wallet rgb_wallet_from_stock load_stock WalletStore.attach
    WalletStore.pay WalletStore.drop WalletStore.store
transfer_durable_example =
    transfer_durable env args spend 20 "wallet" _ world _ true 6 5 1 "out" none file_laws refl refl
      stock_wallet (λ e. absurd (ground arith))

consign_durable_example :
    let end = run_consign env args spend 20 5 "psbt" "out" world in
    AreStored env args
      (record {
        stock_path = "stock";
        wallet_path = some "wallet";
        stock = 15;
        wallet = 24;
        stock_dirty = true;
        wallet_dirty = true;
      })
      "wallet"
      end.0.disk
unfolding run_consign consign_with save_psbt rgb_wallet rgb_wallet_from_stock load_stock
    WalletStore.attach WalletStore.transfer WalletStore.drop WalletStore.store
consign_durable_example =
    consign_durable env args spend 20 "wallet" _ world _ 5 "psbt" "out" 4 4 file_laws refl refl refl
      refl stock_wallet (λ e. absurd (ground arith))

accept_valid_example :
    EndsWith env args world.disk
      (IsAccepted env args files "file" world.disk 10)
      (run_accept env args files false "file" world).0.disk
unfolding run_accept rgb_stock load_stock resolver chosen Any.check StockStore.attach
    StockStore.deref_mut StockStore.drop StockStore.store
accept_valid_example =
    accept_valid env args files false "file" world there stock_laws (λ e. absurd (ground arith))

-- the import ends with an error of the stock, which has changed
import_valid_example :
    EndsWith env args world.disk
      (Imported env args files "file" world.disk 10)
      (run_import env args files false "file" world).0.disk
unfolding run_import import_a_contract rgb_stock load_stock resolver chosen Any.check
    StockStore.attach StockStore.deref_mut StockStore.drop StockStore.store
import_valid_example =
    import_valid env args files false "file" world there stock_laws (λ e. absurd (ground arith))

abbrev absent : World TestDisk
absent = record world { disk = record { stock = none; wallet = none; others = [] } }

abbrev created : World TestDisk
created = (load_stock env args "stock" absent).0

load_stock-holds_example : (stock_files env).load "stock" created.disk ≡ some 0
unfolding load_stock create_stock
load_stock-holds_example = load_stock-holds env args stock_laws "stock" absent created 0 refl

abbrev connected_resolver : AnyResolver ℕ ℕ
connected_resolver = record { inner = 7; terminal_txes = [] }

connected : IsConnected env args connected_resolver
unfolding chosen Any.check Any.from_client
connected = record { chosen = refl; check = refl }

accept_completes_example :
    ((run_accept env args files false "file" world).1 ≡ ok tt)
    × ((stock_files env).load "stock" (run_accept env args files false "file" world).0.disk
        ≡ some 13)
unfolding Any.add_terminals
accept_completes_example =
    accept_completes env args files false "file" world there connected_resolver connected_resolver 3
      3 13 stock_laws connected refl refl refl refl

-- the contract is issued, and the stock that imports it ends with an error
issued : (run_issue env args files issue_api 4 "issuer" "file" world).1 ≢ panic
unfolding run_issue compose add_globals add_global add_assignments add_assignment add_owned
    rgb_stock load_stock resolver chosen Any.check Any.from_client StockStore.attach
    StockStore.deref_mut StockStore.drop StockStore.store
issued e = absurd (ground arith)

issue_composed_example :
    let (w', r) = run_issue env args files issue_api 4 "issuer" "file" world in
    Completes env args world.disk
      (IsIssued env args files issue_api 4 "issuer" "file" world.disk 10)
      w'.disk
      r
issue_composed_example =
    issue_composed env args files issue_api 4 "issuer" "file" world there stock_laws issued

abbrev opened : StoredWallet String ℕ ℕ
opened = record {
  stock_path = "stock";
  wallet_path = some "wallet";
  stock = 10;
  wallet = 20;
  stock_dirty = false;
  wallet_dirty = false;
}

apart : (path : String) → opened.wallet_path ≡ some path → path ≢ "stock"
apart path e q = stock_wallet (ground arith)

invoice_sealed_example :
    (stock_files env).load "stock"
      (run_invoice env args invoice_api 20 9 false 4 "RGB20" 100 world).0.disk
    ≡ some 11
unfolding run_invoice invoice_with blinded rgb_wallet rgb_wallet_from_stock load_stock
    WalletStore.attach WalletStore.stock_mut WalletStore.drop WalletStore.store
invoice_sealed_example =
    invoice_sealed env args invoice_api 20 9 4 "RGB20" "RGB20" 100 (5, 0) opened world _ file_laws
      refl apart refl refl (λ e. absurd (ground arith))
