-- ===== src/Pay/Insufficient.antt =====
-- A payment of src/pay.rs for more than the wallet has.
use rgb.Base.{ℕ, ◌^◌, ◌<◌, ◌≡◌, refl, String, Bool, List, some, ok}
use rgb.Base.Map.{contains}
use rgb.Pay.Api.{PayApi, WalletProvider, XOutputSeal, amount}
use rgb.Pay.Construct.{choose}
use rgb.Pay.Covered.{allocated, everything, prev_outputs_amount-insufficient}
use rgb.Pay.Inputs.{Invoice, operation_of, assignment_of, include_outpoint, prev_outputs_of}
use rgb.Pay.Select.{Allocation, AmountApi, prev_outputs_amount}
use rgb.Psbt.Api.{KeyApi}
use rgb.Psbt.Transition.{TransitionApi}
use rgb.Wallet.Iface.{Iface}
use rgb.Chain.{chain_key}
use rgb.Base.Key.{nat_key, pair_key}
use rgb.Psbt.Methods.{method_key}

module _ (keys : KeyApi) (transitions : TransitionApi) {Output CloseMethodSet : Type 0}
    (has_opret_first : CloseMethodSet → Bool)
    (api : PayApi Output transitions.Transition CloseMethodSet) {W : Type 0}
    (provider : WalletProvider api W) (amounts : AmountApi) (debug : Bool) where
  -- For an invoice whose contract, interface, operation and assignment are found, and for an amount
  -- that the wallet's allocations of the contract do not reach, the choice of outputs is no error: it
  -- returns outputs to which all of these allocations are sealed, as long as their sum is in the
  -- range of an amount.
  pub choose-insufficient :
      (wallet : W) (stock : api.Stock) (invoice : Invoice api) (contract_id n : ℕ)
      (iface_name operation name : String) (iface : Iface) (contract : api.Contract)
      (allocations : List (Allocation XOutputSeal ℕ))
      → invoice.contract ≡ some contract_id
      → invoice.iface ≡ some iface_name
      → invoice.owned_state ≡ amount n
      → api.iface stock iface_name ≡ ok iface
      → api.contract_iface stock contract_id iface_name ≡ ok contract
      → operation_of api invoice iface ≡ ok operation
      → assignment_of api invoice iface operation ≡ ok name
      → api.fungible contract name (include_outpoint api provider amounts stock wallet contract_id)
        ≡ ok allocations
      → allocated everything allocations < 2 ^ 64
      → allocated everything allocations < n
      → (seals : List XOutputSeal) × (choose keys transitions has_opret_first api provider amounts
            debug wallet stock invoice
          ≡ ok seals)
        × (allocated (λ s. contains s seals) allocations ≡ allocated everything allocations)
  unfolding choose prev_outputs_of
  choose-insufficient wallet stock invoice contract_id n iface_name operation name iface contract
        allocations hc hi owned i c op asgn found b h =
      (
        prev_outputs_amount amounts n allocations,
        rw (hc, hi, owned, i, c, op, asgn, found) refl,
        prev_outputs_amount-insufficient amounts n allocations b h,
      )
