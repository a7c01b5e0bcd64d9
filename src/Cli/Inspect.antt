-- ===== src/Cli/Inspect.antt =====
-- `inspect` and `reconstruct` of cli/src/command.rs: what a file of consignments holds, to YAML and
-- back.
use Prim.Native.String.{◌++◌ as ◌<>◌}
use rgb.Base.{
  String, Bool, true, false, Option, none, some, List, [], ◌∷◌, ◌++◌, Result, ok, err, panic,
  expect_ok, expect_some,
}
use rgb.Base.Key.{string_key}
use rgb.Base.Map.{insert}
use rgb.Cli.Args.{Cmd}
use rgb.Cli.Env.{Env, RgbArgs}
use rgb.Cli.Files.{FileApi, Kit, UniversalFile, kit, contract, transfer}
use rgb.Cli.Io.{out, lift, try, ◌>>=◌, ◌>>◌, for_each, print, on_disk, read}
use rgb.Wallet.Errors.{WalletError, io, load, yaml as yaml_error}

-- File names with what is written to them, or the error of its serialisation.
abbrev pub Writes : Env → Type 0
Writes env = List (String × Result (WalletError env.foreign) String)

-- `as_yaml` is `serde_yaml::to_string` of a part, with its error as a `WalletError`.
pub record InspectApi (env : Env) (files : FileApi env) : Type 1 where
  pub write : String → String → env.Disk → env.Disk × Result env.foreign.Io (Unit {0})
  pub create_dir_all : String → env.Disk → env.Disk × Result env.foreign.Io (Unit {0})
  pub remove_dir_all : String → env.Disk → env.Disk × Result env.foreign.Io (Unit {0})
  -- a whole file as YAML
  pub as_yaml :
      UniversalFile (Kit files.Rest) files.Contract files.Transfer → Result env.foreign.Yaml String
  pub into_contract : files.Transfer → files.Contract
  -- the parts of a consignment
  pub genesis : files.Contract → Result (WalletError env.foreign) String
  pub schema : files.Contract → Result (WalletError env.foreign) String
  pub bundles : files.Contract → Result (WalletError env.foreign) String
  pub extensions : files.Contract → Result (WalletError env.foreign) String
  pub types : files.Contract → String
  -- the id of each library and its disassembly
  pub scripts : files.Contract → List (String × Result (WalletError env.foreign) String)
  -- the name of each interface, the interface and its implementation
  pub ifaces :
      files.Contract
      → List (
          String
          × Result (WalletError env.foreign) String
          × Result (WalletError env.foreign) String)
  pub meta : files.Contract → Result (WalletError env.foreign) String
  -- files of consignments that are read from YAML
  pub Text : Type 0
  pub open_file : String → env.Disk → Result env.foreign.Io Text
  pub contract_from : Text → Result env.foreign.Yaml files.Contract
  pub transfer_from : Text → Result env.foreign.Yaml files.Transfer
  pub show_transfer : files.Transfer → String
  pub save_transfer :
      files.Transfer → String → env.Disk → env.Disk × Result env.foreign.Io (Unit {0})

module _ (env : Env) (args : RgbArgs) (files : FileApi env) (api : InspectApi env files) where
  open env use {foreign, Disk}
  open files use {Rest, Contract, Transfer}

  abbrev library_parts : List (String × Result (WalletError foreign) String) → Writes env
  library_parts [] = []
  library_parts ((id, text) ∷ rest) = (id <> ".aluasm", text) ∷ library_parts rest

  abbrev iface_parts :
      List (String × Result (WalletError foreign) String × Result (WalletError foreign) String)
      → Writes env
  iface_parts [] = []
  iface_parts ((name, iface, iimpl) ∷ rest) =
      ("iface-" <> name <> ".yaml", iface) ∷ ("impl-" <> name <> ".yaml", iimpl) ∷ iface_parts rest

  -- the parts of a consignment in the order in which they are put into the map
  unfoldable pub parts : Contract → Writes env
  parts c =
      ("genesis.yaml", api.genesis c)
      ∷ ("schema.yaml", api.schema c)
      ∷ ("bundles.yaml", api.bundles c)
      ∷ ("extensions.yaml", api.extensions c)
      ∷ ("types.sty", ok (api.types c))
      ∷ (library_parts (api.scripts c)
          ++ (iface_parts (api.ifaces c) ++ ("consignment-meta.yaml", api.meta c) ∷ []))

  -- the map of the parts, or the first error among them
  unfoldable pub part_map :
      List (String × String) → Writes env → Result (WalletError foreign) (List (String × String))
  part_map m [] = ok m
  part_map m ((name, err e) ∷ rest) = err e
  part_map m ((name, panic) ∷ rest) = panic
  part_map m ((name, ok text) ∷ rest) = part_map (insert name text m) rest

  abbrev dir_parts : String → List (String × String) → List (String × String)
  dir_parts path [] = []
  dir_parts path ((file, value) ∷ rest) = (path <> "/" <> file, value) ∷ dir_parts path rest

  unfoldable pub write_all : List (String × String) → Cmd env args (Unit {0})
  write_all entries = for_each entries (λ entry. on_disk (api.write entry.0 entry.1) io)

  unfoldable pub inspect_dir : Contract → Option String → Cmd env args (Unit {0})
  unfolding parts part_map write_all
  inspect_dir c path = do
    m ← lift (part_map [] (parts c))
    dir ← lift (expect_some path)
    on_disk (api.create_dir_all dir) io
    write_all (dir_parts dir m)

  abbrev put_text : String → Option String → Cmd env args (Unit {0})
  put_text text none = print (out (text <> "\n"))
  put_text text (some path) = on_disk (api.write path text) io

  abbrev pub inspect_file :
      UniversalFile (Kit Rest) Contract Transfer → Option String → Cmd env args (Unit {0})
  inspect_file content path = do text ← lift (expect_ok (api.as_yaml content)); put_text text path

  -- contracts and transfers go to a directory on demand
  abbrev pub inspect_content :
      UniversalFile (Kit Rest) Contract Transfer → Option String → Bool → Cmd env args (Unit {0})
  inspect_content (contract c) path true = inspect_dir c path
  inspect_content (transfer t) path true = inspect_dir (api.into_contract t) path
  inspect_content (kit k) path true = inspect_file (kit k) path
  inspect_content content path false = inspect_file content path

  unfoldable pub run_inspect : String → Option String → Bool → Cmd env args (Unit {0})
  unfolding inspect_dir
  run_inspect file path dir = do
    content ← read (files.load_file file) load
    inspect_content content path dir

  abbrev put_contract : Contract → Option String → Cmd env args (Unit {0})
  put_contract c none = print (out (files.show_contract c <> "\n"))
  put_contract c (some dst) = on_disk (files.save_contract c dst) io

  abbrev put_transfer : Transfer → Option String → Cmd env args (Unit {0})
  put_transfer t none = print (out (api.show_transfer t <> "\n"))
  put_transfer t (some dst) = on_disk (api.save_transfer t dst) io

  unfoldable pub run_reconstruct : Bool → String → Option String → Cmd env args (Unit {0})
  run_reconstruct false src dst = do
    text ← read (api.open_file src) io
    t ← try (api.transfer_from text) yaml_error
    put_transfer t dst
  run_reconstruct true src dst = do
    text ← read (api.open_file src) io
    c ← try (api.contract_from text) yaml_error
    put_contract c dst
