-- ===== src/Wallet/History.antt =====
-- `WalletStock::fungible_history` of src/wallet.rs over a stock of rgbstd.
use rgb.Base.{String, Bool, Result, map_err, ok_or, ◌>>=◌}
use rgb.Base.Key.{string_key}
use rgb.Base.Map.{lookup}
use rgb.Chain.{XOutpoint, AssignmentWitness}
use rgb.Wallet.Filter.{Wallet, include_outpoint, include_witness}
use rgb.Wallet.Errors.{Foreign, WalletError, history, custom}
use rgb.Wallet.Iface.{
  Iface, HistoryError, no_default_op, default_op_not_transition, no_default_assignment,
}

-- The reads of a stock: its errors have a text.
pub record StockApi (S : Type 0) : Type 1 where
  pub ContractId : Type 0
  pub ContractIface : Type 0
  pub History : Type 0
  pub Error : Type 0
  pub to_string : Error → String
  pub iface : S → String → Result Error Iface
  pub contract_iface : S → ContractId → String → Result Error ContractIface
  pub fungible_ops :
      ContractIface
      → String
      → (AssignmentWitness → Bool)
      → (XOutpoint → Bool)
      → Result Error History

-- the name of the state: the default assignment of the default operation
unfoldable pub state_name : Iface → Result HistoryError String
state_name iface = do
  default_op ← ok_or iface.default_operation no_default_op
  transition ← ok_or (lookup default_op iface.transitions) default_op_not_transition
  ok_or transition.default_assignment no_default_assignment

module _ {S Descr Rest Row : Type 0} (api : StockApi S) where
  open api use {ContractId, History, to_string, iface, contract_iface, fungible_ops}

  unfoldable pub fungible_history :
      {f : Foreign}
      → S
      → Wallet Descr Rest Row
      → ContractId
      → String
      → Result (WalletError f) History
  unfolding state_name
  fungible_history stock wallet contract_id iref = do
    i ← map_err (iface stock iref) (λ e. custom (to_string e))
    name ← map_err (state_name i) history
    contract ← map_err (contract_iface stock contract_id iref) (λ e. custom (to_string e))
    map_err (fungible_ops contract name (include_witness wallet) (include_outpoint wallet))
        (λ e. custom (to_string e))
