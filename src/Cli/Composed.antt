-- ===== src/Cli/Composed.antt =====
-- What `issue` of cli/src/command.rs makes of the YAML of a contract, entry by entry.
use rgb.Base.{ℕ, ◌+◌, ◌≡◌, ◌⊎◌, String, Option, none, some, List, [], ◌∷◌, ok, err}
use rgb.Base.Key.{string_key}
use rgb.Base.Map.{lookup}
use rgb.Chain.{bitcoin}
use rgb.Cli.Env.{Env}
use rgb.Cli.Genesis.{fungible, IssueApi}

-- One step for each entry, in order; the steps are counted.
pub data IsRun {A B : Type 0} (step : ℕ → B → A → B → Type 0) : ℕ → B → List A → B → Type 0 where
  no_entry : (n : ℕ) (b : B) → IsRun step n b [] b
  entry :
      (n : ℕ) (b b' b'' : B) (x : A) (xs : List A)
      → step n b x b'
      → IsRun step (n + 1) b' xs b''
      → IsRun step n b (x ∷ xs) b''

module _ (env : Env) {ValidContract : Type 0} (api : IssueApi env ValidContract) where
  open env use {Stock, StockError}
  open api use {Yaml, SchemaIfaces, Iface, IfaceImpl, Types, Builder}

  -- the value of an entry is typed by the entry's name, serialised and added as that global state
  pub record IsGlobal (schema_ifaces : SchemaIfaces) (iimpl : IfaceImpl) (types : Types) (n : ℕ)
      (b : Builder) (x : Yaml × Yaml) (b' : Builder) : Type 0 where
    pub name : String
    pub is_name : api.as_str x.0 ≡ some name
    pub type_id : ℕ
    pub of_type : lookup name (api.global_state iimpl) ≡ some type_id
    pub sem : api.SemId
    pub has_sem : api.sem_id schema_ifaces type_id ≡ some sem
    pub typed : api.Typed
    pub typifies : api.typify types x.1 sem ≡ some typed
    pub serialized : api.Serialized
    pub serializes : api.strict_serialize types typed ≡ some serialized
    pub field : String
    pub is_field : api.field_name name ≡ some field
    pub added : api.add_global_state b field serialized ≡ some b'

  -- the amount of an entry is added as the fungible state of that name, on a new seal with the
  -- entry's own draw over the output that the entry names
  pub record IsAssigned (schema_ifaces : SchemaIfaces) (iimpl : IfaceImpl) (draw : ℕ) (b : Builder)
      (x : Yaml × Yaml) (b' : Builder) : Type 0 where
    pub name : String
    pub is_name : api.as_str x.0 ≡ some name
    pub type_id : ℕ
    pub of_type : lookup name (api.assignments iimpl) ≡ some type_id
    pub is_fungible : api.state_type schema_ifaces type_id ≡ some fungible
    pub assign : List (Yaml × Yaml)
    pub maps : api.as_mapping x.1 ≡ some assign
    pub seal_value : Yaml
    pub has_seal : api.get assign "seal" ≡ some seal_value
    pub text : String
    pub is_text : api.as_str seal_value ≡ some text
    pub seal : api.OutputSeal
    pub parses : api.parse_seal text ≡ some seal
    pub field : String
    pub is_field : api.field_name name ≡ some field
    pub amount_value : Yaml
    pub has_amount : api.get assign "amount" ≡ some amount_value
    pub amount : ℕ
    pub is_amount : api.as_u64 amount_value ≡ some amount
    pub added : api.add_fungible_state b field (bitcoin (api.new_random seal draw)) amount ≡ some b'

  -- all entries of a part of the YAML are added, if the part is there
  abbrev pub IsPart :
      (ℕ → Builder → Yaml × Yaml → Builder → Type 0) → Option Yaml → Builder → Builder → Type 0
  IsPart step part b b' =
      ((part ≡ none) × (b ≡ b'))
      ⊎ ((value : Yaml) × (entries : List (Yaml × Yaml)) × (part ≡ some value)
          × (api.as_mapping value ≡ some entries)
          × IsRun step 0 b entries b')

  -- the interface is found by its name, or else its name is an id
  abbrev pub IsNamed : Stock → String → Iface → Type 0
  IsNamed s name i =
      (api.iface_by_name s name ≡ ok i)
      ⊎ ((e : StockError) × (id : ℕ) × (api.iface_by_name s name ≡ err e)
          × (api.parse_iface_id name ≡ ok id)
          × (api.iface_by_id s id ≡ ok i))

  -- the contract that is issued once the global states and the assignments of the YAML are added
  -- to the builder for the schema, the interface that the YAML names and the issuer
  pub record IsComposed (s : Stock) (schema_id : ℕ) (issuer : String) (yaml : Yaml)
      (c : ValidContract) : Type 0 where
    pub code : List (Yaml × Yaml)
    pub maps : api.as_mapping yaml ≡ some code
    pub named : Yaml
    pub has_interface : api.get code "interface" ≡ some named
    pub text : String
    pub is_text : api.as_str named ≡ some text
    pub schema_ifaces : SchemaIfaces
    pub has_schema : api.schema s schema_id ≡ ok schema_ifaces
    pub iface_name : String
    pub is_name : env.type_name text ≡ some iface_name
    pub iface : Iface
    pub is_iface : IsNamed s iface_name iface
    pub iimpl : IfaceImpl
    pub implements : api.iface_impl schema_ifaces (api.iface_id iface) ≡ some iimpl
    pub b0 : Builder
    pub starts : api.contract_builder s issuer schema_id (api.iface_id iface) ≡ ok b0
    pub b1 : Builder
    pub globals :
        IsPart (IsGlobal schema_ifaces iimpl (api.type_system b0)) (api.get code "globals") b0 b1
    pub b2 : Builder
    pub assignments : IsPart (IsAssigned schema_ifaces iimpl) (api.get code "assignments") b1 b2
    pub issues : api.issue_contract b2 ≡ ok c
