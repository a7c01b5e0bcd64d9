-- ===== src/Pay/Names.antt =====
-- The names that a payment of src/pay.rs and the history of src/wallet.rs take from an interface.
use rgb.Base.{ℕ, String, Bool, ◌≡◌, none, some, ok, map_err, ◌>>=◌, arith}
use rgb.Base.Key.{string_key}
use rgb.Pay.Api.{PayApi, WalletProvider}
use rgb.Pay.Construct.{choose}
use rgb.Pay.Errors.{CompositionError, no_operation, no_assignment}
use rgb.Pay.Inputs.{Invoice, operation_of, assignment_of, prev_outputs_of}
use rgb.Pay.Select.{AmountApi}
use rgb.Psbt.Api.{KeyApi}
use rgb.Psbt.Transition.{TransitionApi}
use rgb.Wallet.History.{state_name}
use rgb.Wallet.Iface.{
  Iface, HistoryError, no_default_op, default_op_not_transition, no_default_assignment,
}

-- what a payment calls an interface that has no history
abbrev pub refusal : {C I : Type 0} → HistoryError → CompositionError C I
refusal no_default_op = no_operation
refusal default_op_not_transition = no_assignment
refusal no_default_assignment = no_assignment

module _ (keys : KeyApi) (transitions : TransitionApi) {Output CloseMethodSet : Type 0}
    (has_opret_first : CloseMethodSet → Bool)
    (api : PayApi Output transitions.Transition CloseMethodSet) {W : Type 0}
    (provider : WalletProvider api W) (amounts : AmountApi) (debug : Bool) where
  -- For an invoice with a contract and an interface that the stock knows, and with neither an
  -- operation nor an assignment, a payment chooses among the outputs of the very state whose history
  -- a wallet shows; where the interface has no history, the payment is refused for it: with
  -- `NoOperation` if there is no default operation, with `NoAssignment` if there is no default
  -- assignment.
  pub choose-state_name :
      (wallet : W) (stock : api.Stock) (invoice : Invoice api) (contract_id : ℕ)
      (iface_name : String) (iface : Iface) (contract : api.Contract)
      → invoice.contract ≡ some contract_id
      → invoice.iface ≡ some iface_name
      → api.iface stock iface_name ≡ ok iface
      → api.contract_iface stock contract_id iface_name ≡ ok contract
      → invoice.operation ≡ none
      → invoice.assignment ≡ none
      → choose keys transitions has_opret_first api provider amounts debug wallet stock invoice ≡ (
          map_err (state_name iface) refusal >>= λ name.
          prev_outputs_of api provider amounts stock wallet contract_id contract name
            invoice.owned_state)
  unfolding choose state_name operation_of assignment_of
  choose-state_name wallet stock invoice contract_id iface_name iface contract hc hi i c op asgn =
      rw (hc, hi, i, c, op, asgn) (ground arith)
