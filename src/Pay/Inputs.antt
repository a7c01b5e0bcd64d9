-- ===== src/Pay/Inputs.antt =====
-- The first part of `construct_psbt_rgb` of src/pay.rs: what an invoice asks for, and the outputs that
-- are spent for it.
use rgb.Base.{
  ℕ, String, Bool, false, not, Option, none, some, List, [], ◌∷◌, map, Result, ok, err, panic,
  map_err, ok_or, or_else, ◌>>=◌, if◌then◌else◌, is_empty,
}
use rgb.Base.Key.{string_key, nat_key, pair_key}
use rgb.Base.Map.{lookup}
use rgb.Chain.{XOutpoint, Outpoint, chain_key}
use rgb.Pay.Api.{
  XOutputSeal, InvoiceState, amount, data_rgb21, other_state, Beneficiary, blinded_seal,
  witness_vout, RgbInvoice, TransferParams, PayApi, WalletProvider,
}
use rgb.Pay.Errors.{CompositionError, no_operation, no_assignment, unsupported, interface}
use rgb.Pay.Select.{AmountApi, prev_outputs_amount, prev_outputs_data}
use rgb.Psbt.Methods.{method_key}
use rgb.Wallet.Iface.{Iface, TransitionIface}

abbrev pub default_of : Option TransitionIface → Option String
default_of none = none
default_of (some t) = t.default_assignment

module _ {Output Transition CloseMethodSet : Type 0}
    (api : PayApi Output Transition CloseMethodSet) where
  open api use {
    Alloc21, Other, Secret, Address, Network, Stock, Contract, ContractError, ConstructionError,
    contract_assignments_for, fungible, data_of, same_data, data_from, tx_with_fee,
  }

  abbrev pub Invoice : Type 0
  Invoice = RgbInvoice Alloc21 Other Secret Address Network

  abbrev pub Composed : Type 0 → Type 0
  Composed A = Result (CompositionError ConstructionError ContractError) A

  -- `TransferParams::with`
  unfoldable pub with_fee : ℕ → ℕ → TransferParams api.TxParams
  with_fee fee min_amount = record { tx = tx_with_fee fee; min_amount = min_amount }

  unfoldable pub operation_of : Invoice → Iface → Composed String
  operation_of invoice iface =
      ok_or (or_else invoice.operation iface.default_operation) no_operation

  unfoldable pub assignment_of : Invoice → Iface → String → Composed String
  assignment_of invoice iface operation =
      ok_or (or_else invoice.assignment (default_of (lookup operation iface.transitions)))
        no_assignment

  -- `ContractOutpointsFilter::include_outpoint`
  abbrev pub some_assigned : {E A : Type 0} → Result E (List A) → Bool
  some_assigned (ok list) = not (is_empty list)
  some_assigned (err e) = false
  some_assigned panic = false

  module _ {W : Type 0} (provider : WalletProvider api W) (amounts : AmountApi) where
    unfoldable pub include_outpoint : Stock → W → ℕ → XOutpoint → Bool
    include_outpoint stock wallet contract_id output =
        if not (provider.include_outpoint wallet output)
        then false
        else some_assigned (contract_assignments_for stock contract_id (output ∷ []))

    -- the `match` on the owned state
    unfoldable pub prev_outputs_of :
        Stock → W → ℕ → Contract → String → InvoiceState Alloc21 Other → Composed (List XOutputSeal)
    unfolding include_outpoint
    prev_outputs_of stock wallet contract_id contract name (amount n) = do
      allocations ←
          map_err (fungible contract name (include_outpoint stock wallet contract_id)) interface
      ok (prev_outputs_amount amounts n allocations)
    prev_outputs_of stock wallet contract_id contract name (data_rgb21 a) = do
      allocations ←
          map_err (data_of contract name (include_outpoint stock wallet contract_id)) interface
      ok (prev_outputs_data same_data (data_from a) allocations)
    prev_outputs_of stock wallet contract_id contract name (other_state x) = err unsupported

  -- the payments to addresses
  unfoldable pub beneficiaries_of :
      Invoice → ℕ → Beneficiary Secret Address → List (Address × Network × ℕ)
  beneficiaries_of invoice min_amount (blinded_seal s) = []
  beneficiaries_of invoice min_amount (witness_vout address method) =
      (address, invoice.network, min_amount) ∷ []

  unfoldable pub prev_outpoints_of : List XOutputSeal → List Outpoint
  prev_outpoints_of seals = map (λ o. (api.as_reduced_unsafe o).1) seals
