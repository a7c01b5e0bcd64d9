-- ===== src/Cli/Dump.antt =====
-- `dump` of cli/src/command.rs: all that the stock holds, as YAML files below a directory.
use Prim.Native.String.{◌++◌ as ◌<>◌}
use rgb.Base.{String, List, [], ◌∷◌, ◌++◌, Result, ok}
use rgb.Cli.Args.{Cmd}
use rgb.Cli.Env.{Env, RgbArgs}
use rgb.Cli.Files.{FileApi}
use rgb.Cli.Inspect.{Writes, InspectApi}
use rgb.Cli.Io.{log, lift, ◌>>=◌, ◌>>◌, for_each, inner, say, held, on_disk}
use rgb.Cli.Stash.{StockCmd, with_stock}
use rgb.Wallet.Errors.{WalletError, io}

-- What the debug reads of the stock return: the end of each file's name and its YAML.
pub record DumpApi (env : Env) : Type 1 where
  pub schemata : env.Stock → Writes env
  pub ifaces : env.Stock → Writes env
  pub geneses : env.Stock → Writes env
  -- the supplements of each contract, and the lists of them
  pub suppl : env.Stock → Writes env
  pub suppl_lists : env.Stock → Writes env
  pub bundles : env.Stock → Writes env
  pub witnesses : env.Stock → Writes env
  pub extensions : env.Stock → Writes env
  pub secret_seals : env.Stock → Result (WalletError env.foreign) String
  pub history : env.Stock → Writes env
  pub op_bundle_index : env.Stock → Result (WalletError env.foreign) String
  pub bundle_contract_index : env.Stock → Result (WalletError env.foreign) String
  pub bundle_witness_index : env.Stock → Result (WalletError env.foreign) String
  pub contract_index : env.Stock → Result (WalletError env.foreign) String
  pub terminal_index : env.Stock → Result (WalletError env.foreign) String

module _ (env : Env) (args : RgbArgs) (files : FileApi env) (api : InspectApi env files)
    (dumps : DumpApi env) where
  open env use {foreign, Stock}

  abbrev pub dump_dirs : List String
  dump_dirs =
      "/stash/schemata" ∷ "/stash/ifaces" ∷ "/stash/geneses" ∷ "/stash/bundles" ∷ "/stash/witnesses"
      ∷ "/stash/extensions" ∷ "/stash/supplements" ∷ "/state" ∷ "/index" ∷ []

  abbrev below : String → Writes env → Writes env
  below dir [] = []
  below dir ((name, text) ∷ rest) = (dir <> name <> ".yaml", text) ∷ below dir rest

  -- the files below the root, in the order in which they are written
  unfoldable pub dump_files : Stock → Writes env
  dump_files s =
      below "/stash/schemata/" (dumps.schemata s)
      ++ (below "/stash/ifaces/" (dumps.ifaces s)
          ++ (below "/stash/geneses/" (dumps.geneses s)
              ++ (below "/stash/geneses/" (dumps.suppl s)
                  ++ (below "/stash/bundles/" (dumps.bundles s)
                      ++ (below "/stash/witnesses/" (dumps.witnesses s)
                          ++ (below "/stash/extensions/" (dumps.extensions s)
                              ++ (below "/stash/supplements/" (dumps.suppl_lists s)
                                  ++ ("/stash/seal-secret.yaml", dumps.secret_seals s)
                                    ∷ (below "/state/" (dumps.history s)
                                        ++ ("/index/op-to-bundle.yaml", dumps.op_bundle_index s)
                                          ∷ (
                                            "/index/bundle-to-contract.yaml",
                                            dumps.bundle_contract_index s,
                                          )
                                          ∷ (
                                            "/index/bundle-to-witness.yaml",
                                            dumps.bundle_witness_index s,
                                          )
                                          ∷ ("/index/contracts.yaml", dumps.contract_index s)
                                          ∷ ("/index/terminals.yaml", dumps.terminal_index s)
                                          ∷ []))))))))

  -- `fs::write(path, to_string(…)?)?`
  abbrev dump_file :
      String → String × Result (WalletError foreign) String → StockCmd env args (Unit {0})
  dump_file root (name, r) = do text ← lift r; inner (on_disk (api.write (root <> name) text) io)

  -- `remove_dir_all(…).ok()`: whether it fails or not
  abbrev cleared : String → StockCmd env args (Unit {0})
  cleared root (s, w) = ((s, record w { disk = (api.remove_dir_all root w.disk).0 }), ok tt)

  unfoldable pub run_dump : String → Cmd env args (Unit {0})
  unfolding dump_files
  run_dump root = with_stock env args do
    s ← held
    cleared root
    for_each dump_dirs (λ dir. inner (on_disk (api.create_dir_all (root <> dir)) io))
    for_each (dump_files s.stock) (dump_file root)
    say (log ("Dump is successfully generated and saved to '" <> root <> "'\n"))
