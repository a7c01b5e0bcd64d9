-- ===== src/Cli/Env.antt =====
-- What cli/src/args.rs takes from other crates, and the arguments that it reads. A path is a text.
use rgb.Base.{ℕ, String, Bool, Option, Result, ok, err, panic, none, some}
use rgb.Chain.{Network, XWitnessId}
use rgb.Cli.Io.{World}
use rgb.Resolver.Api.{RgbResolver}
use rgb.Store.Disk.{FileStore}
use rgb.Store.Wallet.{WalletApi}
use rgb.Wallet.Errors.{Foreign}

pub record Env : Type 1 where
  pub foreign : Foreign
  pub Disk : Type 0
  pub Stock : Type 0
  pub StockError : Type 0
  pub to_string : StockError → String
  -- `Stock::load`, `Stock::store` and `Stock::default`
  pub load_stock : String → Disk → Result foreign.Deserialize Stock
  pub is_not_found : foreign.Deserialize → Bool
  pub store_stock : Stock → String → Disk → Disk × Result foreign.Serialize (Unit {0})
  pub default_stock : Stock
  pub create_dir_all : String → Disk → Disk × Result foreign.Io (Unit {0})
  -- the wallet of bpwallet, with its path if it has one
  pub Wallet : Type 0
  pub Config : Type 0
  pub bp_runtime :
      Config → World Disk → World Disk × Result foreign.Runtime (Option String × Wallet)
  pub wallet_api : WalletApi Wallet Stock
  pub wallet_files : FileStore Disk String Wallet foreign.Runtime
  -- the clients of the two kinds of server, and a resolver over either
  pub Client : Type 0
  pub Tx : Type 0
  pub Pos : Type 0
  pub txid : Tx → ℕ
  pub not_layer1 : XWitnessId → String
  pub client_api : RgbResolver Client Tx Pos
  pub electrum_client : String → Result String Client
  pub esplora_client : String → Result String Client
  pub is_testnet : Network → Bool
  -- `TypeName::try_from` and `from_str`
  pub type_name : String → Option String

abbrev pub loaded : {E A : Type 0} → Result E A → Option A
loaded (ok a) = some a
loaded (err e) = none
loaded panic = none

-- the files of the stock, as `StoredStock` and `StoredWallet` use them
abbrev pub stock_files : (env : Env) → FileStore env.Disk String env.Stock env.foreign.Serialize
stock_files env = record {
  store = env.store_stock;
  load = λ path disk. loaded (env.load_stock path disk);
}

-- the arguments that all commands share
pub record RgbArgs : Type 0 where
  pub verbose : ℕ
  pub base_dir : String
  pub network : Network
  pub esplora : Option String
  pub electrum : Option String
