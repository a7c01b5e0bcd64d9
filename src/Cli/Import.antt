-- ===== src/Cli/Import.antt =====
-- `import` of cli/src/command.rs: kits and contracts.
use Prim.Native.String.{◌++◌ as ◌<>◌}
use rgb.Base.{
  ℕ, String, Bool, true, false, Option, none, some, List, [], ◌∷◌, ◌++◌, Result, ok, err, panic,
  not,
}
use rgb.Base.Key.{nat_key}
use rgb.Base.Map.{lookup, insert}
use rgb.Cli.Args.{Cmd, resolver}
use rgb.Cli.Env.{Env, RgbArgs}
use rgb.Cli.Io.{log, World, Io, pure, lift, try, ◌>>=◌, ◌>>◌, for_each, inner, say, read}
use rgb.Cli.Stash.{StockCmd, with_stock}
use rgb.Wallet.Errors.{WalletError, load, custom}
use rgb.Cli.Files.{FileApi, Kit, UniversalFile, kit, contract, transfer, change_stock}

module _ (env : Env) (args : RgbArgs) where
  open env use {foreign, Disk, Stock, is_testnet}

  module _ (api : FileApi env) where
    open api use {Rest, Contract, Transfer, show_id, show_short, show_status}

    abbrev name_or : ℕ → Option String → String
    name_or id none = show_id id
    name_or id (some name) = name

    -- what is printed of the implementations, with the names that the kit gives
    unfoldable pub iimpl_lines : List (ℕ × String) → List (ℕ × String) → List (ℕ × ℕ) → List String
    iimpl_lines iface_names schema_names [] = []
    iimpl_lines iface_names schema_names ((iface, schema) ∷ rest) =
        ("- implementation of "
          <> name_or iface (lookup iface iface_names)
          <> " for "
          <> name_or schema (lookup schema schema_names)
          <> "\n")
        ∷ iimpl_lines iface_names schema_names rest

    -- the names in the order in which they are inserted
    unfoldable pub names : List (ℕ × String) → List (ℕ × String) → List (ℕ × String)
    names m [] = m
    names m ((id, name) ∷ rest) = names (insert id name m) rest

    abbrev pub log_all :
        {X : Type 0} → List String → Io (X × World Disk) (WalletError foreign) (Unit {0})
    log_all lines = for_each lines (λ line. say (log line))

    abbrev named : String → List (ℕ × String) → List String
    named kind [] = []
    named kind ((id, name) ∷ rest) =
        ("- " <> kind <> " " <> name <> " " <> show_short id <> "\n") ∷ named kind rest

    abbrev libraries : List ℕ → List String
    libraries [] = []
    libraries (id ∷ rest) = ("- script library " <> show_id id <> "\n") ∷ libraries rest

    -- what is printed of a kit before it is validated
    abbrev pub kit_lines : Kit Rest → List String
    kit_lines k =
        ("Importing kit " <> show_id k.kit_id <> ":\n")
        ∷ (named "interface" k.ifaces
            ++ (named "schema" k.schemata
                ++ (iimpl_lines (names [] k.ifaces) (names [] k.schemata) k.iimpls
                    ++ (libraries k.scripts
                        ++ ("- strict types: " <> show_id k.types <> " definitions\n") ∷ []))))

    unfoldable pub import_a_kit : Kit Rest → StockCmd env args (Unit {0})
    import_a_kit k = do
      log_all (kit_lines k)
      valid ← try (api.validate_kit k) (λ status. custom (show_status status))
      change_stock env args (λ s. api.import_kit s valid)
      say (log "Kit is imported\n")

    -- `failure` or `success` is printed after the validation
    abbrev pub validated : {A : Type 0} → Result foreign.Status A → StockCmd env args A
    validated (ok a) = say (log "success\n") >> pure a
    validated (err status) = say (log "failure\n") >> lift (err (custom (show_status status)))
    validated panic = lift panic

    unfoldable pub import_a_contract : Contract → StockCmd env args (Unit {0})
    import_a_contract c = do
      say (log ("Importing consignment " <> api.consignment_id c <> ":\n"))
      r ← inner (resolver env args)
      say (log ("- validating the contract " <> api.contract_id c <> " ... "))
      let checked = api.validate_contract c r (is_testnet args.network)
      valid ← validated checked.1
      change_stock env args (λ s. api.import_contract s valid checked.0)
      say (log "Consignment is imported\n")

    abbrev pub import_content :
        UniversalFile (Kit Rest) Contract Transfer → StockCmd env args (Unit {0})
    import_content (kit k) = import_a_kit k
    import_content (contract c) = import_a_contract c
    import_content (transfer t) =
        lift
          (err (custom "use `validate` and `accept` commands to work with transfer consignments"))

    -- `assert!`
    abbrev pub assert : {X : Type 0} → Bool → Io (X × World Disk) (WalletError foreign) (Unit {0})
    assert true = pure tt
    assert false = lift panic

    abbrev pub import_with : Bool → String → StockCmd env args (Unit {0})
    import_with armored file = do
      assert (not armored)
      content ← inner (read (api.load_file file) load)
      import_content content

    unfoldable pub run_import : Bool → String → Cmd env args (Unit {0})
    run_import armored file = with_stock env args (import_with armored file)
