-- ===== src/Wallet/Errors.antt =====
-- `WalletError` of src/errors.rs. The errors of other crates inside are types of `Foreign`; `Status`
-- is a validation status.
use rgb.Base.{String}
use rgb.Wallet.Iface.{HistoryError}

pub record Foreign : Type 1 where
  pub Io : Type 0
  pub Serialize : Type 0
  pub Deserialize : Type 0
  pub Load : Type 0
  pub Builder : Type 0
  pub Contract : Type 0
  pub PsbtDecode : Type 0
  pub Status : Type 0
  pub IdError : Type 0
  pub Runtime : Type 0
  pub Yaml : Type 0

-- `resolver`, `stock` and `custom` hold a text; a text is converted to `custom`.
pub data WalletError (f : Foreign) : Type 0 where
  io : f.Io → WalletError f
  serialize : f.Serialize → WalletError f
  deserialize : f.Deserialize → WalletError f
  load : f.Load → WalletError f
  builder : f.Builder → WalletError f
  history : HistoryError → WalletError f
  contract : f.Contract → WalletError f
  psbt_decode : f.PsbtDecode → WalletError f
  wallet_unknown : String → WalletError f
  invalid_consignment : f.Status → WalletError f
  invalid_id : f.IdError → WalletError f
  incomplete_contract : f.Status → WalletError f
  bp : f.Runtime → WalletError f
  resolver : String → WalletError f
  stock : String → WalletError f
  yaml : f.Yaml → WalletError f
  custom : String → WalletError f
