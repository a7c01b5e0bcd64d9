-- ===== src/Tests/CliExec.antt =====
-- The rest of what the commands take, for the small environment.
use text.Mathlib.Text.{◌==◌ as str_eq}
use rgb.Base.{
  ℕ, String, Option, List, ◌==◌, if◌then◌else◌, ◌+◌, none, some, [], ◌∷◌, ok, err, true, false,
}
use rgb.Cli.Dump.{DumpApi}
use rgb.Cli.Exec.{ExecApi}
use rgb.Cli.Genesis.{IssueApi, fungible}
use rgb.Cli.Inspect.{InspectApi}
use rgb.Cli.Issue.{InvoiceApi}
use rgb.Cli.Io.{pure}
use rgb.Cli.Stash.{StashApi}
use rgb.Cli.State.{StateApi}
use rgb.Descriptor.Keychain.{opret_first}
use rgb.Tests.CliEnv.{env, files, spend}
use rgb.Wallet.Errors.{custom}

abbrev stash : StashApi env
stash = record {
  taprets = λ s. ok [];
  schemata = λ s. ok ("schema" ∷ []);
  ifaces = λ s. ok ("RGB20" ∷ "RGB21" ∷ []);
  contracts = λ s. ok [];
  contracts_by = λ standard s. err "no such interface";
  Seal = ℕ;
  show_seal = λ s. "seal";
  show_change = λ c. "change";
  show_witness = λ w. "witness";
  show_count = λ n. "count";
  contract_id = λ id. id;
  iface_ref = λ name. name;
  entries = λ h. [];
  wallet_error = λ e. custom e;
}

abbrev state_api : StateApi env
state_api = record {
  Contract = ℕ;
  contract_iface = λ s id name. ok id;
  global_state = λ c. [];
  global = λ c name. none;
  assignments = λ c. [];
  fungible = λ c name f. none;
  data_of = λ c name f. none;
  attachments = λ c name f. none;
  rights = λ c name f. none;
  include_outpoint = λ w o. false;
}

-- A YAML with one global state, of value 3, and one assignment, of amount 5: the values are numbers,
-- and 1 is a mapping with one entry.
abbrev mapping_of : ℕ → Option (List (ℕ × ℕ))
mapping_of y = if y == 1 then some ((2, 3) ∷ []) else some []

abbrev entry_of : String → ℕ
entry_of key = if str_eq key "interface" then 0 else if str_eq key "amount" then 5 else 1

abbrev pub issue_api : IssueApi env ℕ
issue_api = record {
  Yaml = ℕ;
  as_mapping = mapping_of;
  get = λ m key. some (entry_of key);
  as_str = λ y. some "RGB20";
  as_u64 = λ y. some y;
  Text = ℕ;
  open_file = λ path d. ok 0;
  from_reader = λ t. ok t;
  SchemaIfaces = ℕ;
  schema = λ s id. ok id;
  Iface = ℕ;
  iface_by_name = λ s name. ok 0;
  iface_by_id = λ s id. ok id;
  parse_iface_id = λ text. err "not an id";
  iface_id = λ i. i;
  IfaceImpl = ℕ;
  iface_impl = λ s i. some i;
  global_state = λ i. ("RGB20", 6) ∷ [];
  assignments = λ i. ("RGB20", 6) ∷ [];
  SemId = ℕ;
  sem_id = λ s t. some t;
  state_type = λ s t. some fungible;
  Types = ℕ;
  Typed = ℕ;
  Serialized = ℕ;
  typify = λ t y s. some y;
  strict_serialize = λ t y. some y;
  field_name = λ name. some name;
  Builder = ℕ;
  contract_builder = λ s issuer schema i. ok s;
  type_system = λ b. b;
  add_global_state = λ b field v. some (b + v);
  OutputSeal = ℕ;
  GenesisSeal = ℕ;
  parse_seal = λ text. some 8;
  new_random = λ s n. n;
  add_fungible_state = λ b field s n. some (b + n);
  issue_contract = λ b. ok b;
  contract_id = λ c. "contract";
}

abbrev pub invoice_api : InvoiceApi env
invoice_api = record {
  coinselect = λ w amount pass. (5, 0) ∷ [];
  Network = ℕ;
  network = λ w. 0;
  Address = ℕ;
  next_address = λ w keychain. none;
  seal_close_method = λ w. opret_first;
  GraphSeal = ℕ;
  new_random = λ m o n. n;
  store_secret_seal = λ s seal. (s + 1, ok true);
  Secret = ℕ;
  secret_seal = λ seal. 0;
  show_invoice = λ network b c iface value. "invoice";
}

abbrev inspect_api : InspectApi env files
inspect_api = record {
  write = λ path text d. (record d { others = path ∷ d.others }, ok tt);
  create_dir_all = λ path d. (d, ok tt);
  remove_dir_all = λ path d. (d, err "not a directory");
  as_yaml = λ f. ok "yaml";
  into_contract = λ t. t;
  genesis = λ c. ok "genesis";
  schema = λ c. ok "schema";
  bundles = λ c. ok "bundles";
  extensions = λ c. ok "extensions";
  types = λ c. "types";
  scripts = λ c. [];
  ifaces = λ c. [];
  meta = λ c. ok "meta";
  Text = ℕ;
  open_file = λ path d. ok 0;
  contract_from = λ t. ok t;
  transfer_from = λ t. ok t;
  show_transfer = λ t. "transfer";
  save_transfer = λ t path d. (d, ok tt);
}

abbrev dump_api : DumpApi env
dump_api = record {
  schemata = λ s. [];
  ifaces = λ s. [];
  geneses = λ s. [];
  suppl = λ s. [];
  suppl_lists = λ s. [];
  bundles = λ s. [];
  witnesses = λ s. [];
  extensions = λ s. [];
  secret_seals = λ s. ok "seals";
  history = λ s. [];
  op_bundle_index = λ s. ok "index";
  bundle_contract_index = λ s. ok "index";
  bundle_witness_index = λ s. ok "index";
  contract_index = λ s. ok "index";
  terminal_index = λ s. ok "index";
}

abbrev pub api : ExecApi env
api = record {
  stash = stash;
  spend = spend;
  files = files;
  state = state_api;
  issue = issue_api;
  invoice = invoice_api;
  inspect = inspect_api;
  dump = dump_api;
  General = Unit {0};
  general = λ g. pure tt;
  balance = tt;
  show_error = λ e. "error";
}
