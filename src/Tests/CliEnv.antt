-- ===== src/Tests/CliEnv.antt =====
-- A small environment of the command line: a stock and a wallet are numbers, each with a file, and
-- all errors are texts.
use text.Mathlib.TextEquality.{eq_iff}
use rgb.Base.{
  ℕ, ◌+◌, ◌≡◌, ◌≢◌, refl, String, true, Option, none, some, List, [], ◌∷◌, Result, ok, err, arith,
}
use rgb.Chain.{testnet3}
use rgb.Cli.Durable.{FileLaws}
use rgb.Cli.Env.{Env, stock_files, RgbArgs}
use rgb.Cli.Files.{FileApi, contract}
use rgb.Cli.Io.{World}
use rgb.Cli.Reads.{IsThere, IsReadable}
use rgb.Cli.Spend.{SpendApi, PsbtVer}
use rgb.Resolver.Api.{RgbResolver}
use rgb.Store.Disk.{StoreLaws}
use rgb.Store.Wallet.{WalletApi}
use rgb.Wallet.Errors.{Foreign}

-- the files
pub record TestDisk : Type 0 where
  pub stock : Option ℕ
  pub wallet : Option ℕ
  pub others : List String

abbrev foreign : Foreign
foreign = record {
  Io = String;
  Serialize = String;
  Deserialize = String;
  Load = String;
  Builder = String;
  Contract = String;
  PsbtDecode = String;
  Status = String;
  IdError = String;
  Runtime = String;
  Yaml = String;
}

abbrev load_file : Option ℕ → Result String ℕ
load_file none = err "absent"
load_file (some n) = ok n

-- A payment adds the amount to the wallet and takes it from the stock; there are no funds for it.
abbrev payments : WalletApi ℕ ℕ
payments = record {
  RgbInvoice = ℕ;
  TransferParams = ℕ × ℕ;
  Psbt = ℕ;
  PsbtMeta = Unit {0};
  Transfer = ℕ;
  ContractId = ℕ;
  IfaceRef = String;
  History = ℕ;
  PayError = String;
  CompositionError = String;
  CompletionError = String;
  WalletError = String;
  pay = λ w s i p. (w + i, s + p.1, err "no funds");
  construct_psbt_rgb = λ w s i p. (w + 1, ok (p.0, tt));
  transfer = λ w s i p. (w + p, s + i, p + 1, ok s);
  fungible_history = λ s w c i. ok s;
}

abbrev client_api : RgbResolver ℕ ℕ ℕ
client_api = record {
  check = λ s network hash. ok tt;
  resolve_height = λ s id. (s, err "unknown");
  resolve_pub_witness = λ s id. err none;
}

abbrev pub env : Env
env = record {
  foreign = foreign;
  Disk = TestDisk;
  Stock = ℕ;
  StockError = String;
  to_string = λ e. e;
  load_stock = λ path d. load_file d.stock;
  is_not_found = λ e. true;
  store_stock = λ s path d. (record d { stock = some s }, ok tt);
  default_stock = 0;
  create_dir_all = λ path d. (record d { others = path ∷ d.others }, ok tt);
  Wallet = ℕ;
  Config = ℕ;
  bp_runtime = λ config w. (w, ok (some "wallet", config));
  wallet_api = payments;
  wallet_files = record {
    store = λ v path d. (record d { wallet = some v }, ok tt);
    load = λ path d. d.wallet;
  };
  Client = ℕ;
  Tx = ℕ;
  Pos = ℕ;
  txid = λ tx. tx;
  not_layer1 = λ id. "not on the bitcoin layer";
  client_api = client_api;
  electrum_client = λ url. ok 7;
  esplora_client = λ url. err "no server";
  is_testnet = λ network. true;
  type_name = λ name. some name;
}

abbrev pub args : RgbArgs
args = record {
  verbose = 2;
  base_dir = "stock";
  network = testnet3;
  esplora = none;
  electrum = some "server";
}

stored :
    (v : ℕ) (p : String) (d : TestDisk)
    → ((stock_files env).store v p d).1 ≡ ok tt
    → (stock_files env).load p ((stock_files env).store v p d).0 ≡ some v
stored v p d e = refl

pub stock_laws : StoreLaws (stock_files env)
stock_laws = record { load-store = stored }

stored_wallet :
    (v : ℕ) (p : String) (d : TestDisk)
    → (env.wallet_files.store v p d).1 ≡ ok tt
    → env.wallet_files.load p (env.wallet_files.store v p d).0 ≡ some v
stored_wallet v p d e = refl

pub file_laws : FileLaws env
file_laws = record {
  stock = stock_laws;
  wallet = record { load-store = stored_wallet };
  stock_apart = record { load-store_ne = λ v p q d ne. refl };
  wallet_apart = record { load-store_ne = λ v p q d ne. refl };
}

abbrev pub world : World TestDisk
world = record { disk = record { stock = some 10; wallet = some 20; others = [] }; printed = [] }

abbrev pub there : IsThere env args world.disk
there = record { stock = 10; loads = refl }

abbrev pub readable : IsReadable env args world.disk
readable = record { there = there; runtime = λ config w. refl }

pub stock_wallet : ◌≢◌ {A = String} "stock" "wallet"
stock_wallet e = absurd (ground (arith, (eq_iff "stock" "wallet").1 e))

abbrev pub spend : SpendApi env
spend = record {
  Bytes = ℕ;
  open_file = λ path d. ok 4;
  create_file = λ path d. (record d { others = path ∷ d.others }, ok tt);
  decode = λ bytes. ok bytes;
  encode = λ psbt ver path d. (d, err "disk full");
  version = λ psbt. PsbtVer.v2;
  show_psbt = λ ver psbt. "psbt";
  save_transfer = λ t path d. (record d { others = path ∷ d.others }, ok tt);
  params = λ fee sats. (fee, sats);
  show_composition = λ e. e;
  show_completion = λ e. e;
  show_pay = λ e. e;
}

-- every consignment is valid, and is added to the stock
abbrev pub files : FileApi env
files = record {
  Rest = Unit {0};
  Contract = ℕ;
  Transfer = ℕ;
  ValidKit = ℕ;
  ValidContract = ℕ;
  ValidTransfer = ℕ;
  load_file = λ path d. ok (contract 5);
  load_transfer = λ path d. ok 3;
  save_contract = λ c path d. (record d { others = path ∷ d.others }, ok tt);
  show_file = λ f. "file";
  show_contract = λ c. "contract";
  show_status = λ s. s;
  show_id = λ id. "id";
  show_short = λ id. "id";
  consignment_id = λ c. "consignment";
  contract_id = λ c. "contract";
  validate_kit = λ k. ok k.kit_id;
  validate_contract = λ c r testnet. (r, ok c);
  validate_transfer = λ t r testnet. (r, ok t);
  validation_status = λ v. "valid";
  is_valid = λ s. true;
  witnesses = λ t. [];
  import_kit = λ s v. (s + v, ok tt);
  import_contract = λ s v r. (s + v, err "already known");
  accept_transfer = λ s v r. (s + v, ok tt);
  export_contract = λ s id. ok id;
}
