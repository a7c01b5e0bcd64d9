-- ===== src/Cli/Genesis.antt =====
-- The first part of `issue` of cli/src/command.rs: from the YAML of a contract to the contract. What
-- the code expects of the YAML panics where it is missing.
use Prim.Native.String.{◌++◌ as ◌<>◌}
use rgb.Base.{
  ℕ, ◌+◌, String, Option, none, some, List, [], ◌∷◌, Result, ok, err, panic, map_err, ok_or,
  expect_some, ◌>>=◌,
}
use rgb.Base.Key.{string_key}
use rgb.Base.Map.{lookup}
use rgb.Chain.{XChain, bitcoin}
use rgb.Cli.Env.{Env}
use rgb.Wallet.Errors.{WalletError, stock, invalid_id, builder as builder_error, custom}

pub data StateType : Type 0 where
  void fungible structured attachment : StateType

pub record IssueApi (env : Env) (ValidContract : Type 0) : Type 1 where
  -- YAML
  pub Yaml : Type 0
  pub as_mapping : Yaml → Option (List (Yaml × Yaml))
  pub get : List (Yaml × Yaml) → String → Option Yaml
  pub as_str : Yaml → Option String
  pub as_u64 : Yaml → Option ℕ
  pub Text : Type 0
  pub open_file : String → env.Disk → Result env.foreign.Io Text
  pub from_reader : Text → Result env.foreign.Yaml Yaml
  -- the stock's schemata and interfaces; an id is a number
  pub SchemaIfaces : Type 0
  pub schema : env.Stock → ℕ → Result env.StockError SchemaIfaces
  pub Iface : Type 0
  pub iface_by_name : env.Stock → String → Result env.StockError Iface
  pub iface_by_id : env.Stock → ℕ → Result env.StockError Iface
  pub parse_iface_id : String → Result env.foreign.IdError ℕ
  pub iface_id : Iface → ℕ
  pub IfaceImpl : Type 0
  pub iface_impl : SchemaIfaces → ℕ → Option IfaceImpl
  -- the names of an implementation and the types that they stand for
  pub global_state : IfaceImpl → List (String × ℕ)
  pub assignments : IfaceImpl → List (String × ℕ)
  pub SemId : Type 0
  pub sem_id : SchemaIfaces → ℕ → Option SemId
  pub state_type : SchemaIfaces → ℕ → Option StateType
  -- strict types
  pub Types : Type 0
  pub Typed : Type 0
  pub Serialized : Type 0
  pub typify : Types → Yaml → SemId → Option Typed
  pub strict_serialize : Types → Typed → Option Serialized
  pub field_name : String → Option String
  -- the builder of a contract
  pub Builder : Type 0
  pub contract_builder : env.Stock → String → ℕ → ℕ → Result env.StockError Builder
  pub type_system : Builder → Types
  pub add_global_state : Builder → String → Serialized → Option Builder
  pub OutputSeal : Type 0
  pub GenesisSeal : Type 0
  pub parse_seal : String → Option OutputSeal
  -- `new_random`, on a number for what is drawn
  pub new_random : OutputSeal → ℕ → GenesisSeal
  pub add_fungible_state : Builder → String → XChain GenesisSeal → ℕ → Option Builder
  pub issue_contract : Builder → Result env.foreign.Builder ValidContract
  pub contract_id : ValidContract → String

module _ (env : Env) {ValidContract : Type 0} (api : IssueApi env ValidContract) where
  open env use {foreign, Stock, to_string}
  open api use {Yaml, SchemaIfaces, Iface, IfaceImpl, Types, Builder}

  abbrev pub Issued : Type 0 → Type 0
  Issued A = Result (WalletError foreign) A

  abbrev pub stock_text : {A : Type 0} → Result env.StockError A → Issued A
  stock_text r = map_err r (λ e. stock (to_string e))

  -- one global state of the YAML
  unfoldable pub add_global :
      SchemaIfaces → IfaceImpl → Types → Builder → Yaml × Yaml → Issued Builder
  add_global schema_ifaces iimpl types b (key, val) = do
    name ← expect_some (api.as_str key)
    type_id ← expect_some (lookup name (api.global_state iimpl))
    sem ← expect_some (api.sem_id schema_ifaces type_id)
    typed ← expect_some (api.typify types val sem)
    serialized ← expect_some (api.strict_serialize types typed)
    field ← expect_some (api.field_name name)
    expect_some (api.add_global_state b field serialized)

  unfoldable pub add_globals :
      SchemaIfaces → IfaceImpl → Types → Builder → List (Yaml × Yaml) → Issued Builder
  unfolding add_global
  add_globals schema_ifaces iimpl types b [] = ok b
  add_globals schema_ifaces iimpl types b (entry ∷ rest) = do
    b' ← add_global schema_ifaces iimpl types b entry
    add_globals schema_ifaces iimpl types b' rest

  -- the `match` on the type of an owned state; only fungible states are supported
  unfoldable pub add_owned :
      Builder → String → api.GenesisSeal → List (Yaml × Yaml) → StateType → Issued Builder
  add_owned b field seal assign void = panic
  add_owned b field seal assign structured = panic
  add_owned b field seal assign attachment = panic
  add_owned b field seal assign fungible = do
    found ← expect_some (api.get assign "amount")
    amount ← expect_some (api.as_u64 found)
    expect_some (api.add_fungible_state b field (bitcoin seal) amount)

  unfoldable pub add_assignment :
      SchemaIfaces → IfaceImpl → ℕ → Builder → Yaml × Yaml → Issued Builder
  unfolding add_owned
  add_assignment schema_ifaces iimpl draw b (key, val) = do
    name ← expect_some (api.as_str key)
    type_id ← expect_some (lookup name (api.assignments iimpl))
    state ← expect_some (api.state_type schema_ifaces type_id)
    assign ← expect_some (api.as_mapping val)
    found ← expect_some (api.get assign "seal")
    text ← expect_some (api.as_str found)
    seal ← expect_some (api.parse_seal text)
    field ← expect_some (api.field_name name)
    add_owned b field (api.new_random seal draw) assign state

  unfoldable pub add_assignments :
      SchemaIfaces → IfaceImpl → ℕ → Builder → List (Yaml × Yaml) → Issued Builder
  unfolding add_assignment
  add_assignments schema_ifaces iimpl draw b [] = ok b
  add_assignments schema_ifaces iimpl draw b (entry ∷ rest) = do
    b' ← add_assignment schema_ifaces iimpl draw b entry
    add_assignments schema_ifaces iimpl (draw + 1) b' rest

  -- a part of the YAML that may be absent, and is a mapping if it is there
  abbrev pub optional :
      Option Yaml → Builder → (List (Yaml × Yaml) → Issued Builder) → Issued Builder
  optional none b add = ok b
  optional (some part) b add = do entries ← expect_some (api.as_mapping part); add entries

  abbrev pub or_by_id : Stock → String → Result env.StockError Iface → Issued Iface
  or_by_id s name (ok i) = ok i
  or_by_id s name panic = panic
  or_by_id s name (err e) = do
    id ← map_err (api.parse_iface_id name) invalid_id
    stock_text (api.iface_by_id s id)

  -- the contract of the YAML, for a schema and an issuer
  unfoldable pub compose : Stock → ℕ → String → Yaml → Issued ValidContract
  unfolding add_globals add_assignments
  compose s schema_id issuer yaml = do
    code ← expect_some (api.as_mapping yaml)
    named ← expect_some (api.get code "interface")
    text ← expect_some (api.as_str named)
    schema_ifaces ← stock_text (api.schema s schema_id)
    iface_name ← expect_some (env.type_name text)
    i ← or_by_id s iface_name (api.iface_by_name s iface_name)
    iimpl ←
        ok_or (api.iface_impl schema_ifaces (api.iface_id i))
          (custom ("no known interface implementation for " <> iface_name))
    b0 ← stock_text (api.contract_builder s issuer schema_id (api.iface_id i))
    let types = api.type_system b0
    b1 ← optional (api.get code "globals") b0 (add_globals schema_ifaces iimpl types b0)
    b2 ← optional (api.get code "assignments") b1 (add_assignments schema_ifaces iimpl 0 b1)
    map_err (api.issue_contract b2) builder_error
