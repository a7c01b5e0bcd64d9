-- ===== src/Pay/Api.antt =====
-- What src/pay.rs takes from the stock of rgbstd, the invoices, the wallet of bpwallet and the PSBT
-- constructor. A seal is an `XOutputSeal`: a close method and an outpoint on a layer.
use rgb.Base.{ℕ, String, Bool, Option, List, Result}
use rgb.Chain.{XChain, Outpoint, XOutpoint}
use rgb.Descriptor.Api.{Terminal}
use rgb.Descriptor.Keychain.{CloseMethod}
use rgb.Descriptor.Tapret.{TapTweakAlreadyAssigned}
use rgb.Pay.Select.{Allocation}
use rgb.Psbt.Bundles.{Psbt}
use rgb.Psbt.Embed.{TransitionInfo}
use rgb.Wallet.Iface.{Iface}

abbrev pub OutputSeal : Type 0
OutputSeal = CloseMethod × Outpoint

abbrev pub XOutputSeal : Type 0
XOutputSeal = XChain OutputSeal

pub data InvoiceState (Alloc21 Other : Type 0) : Type 0 where
  amount : ℕ → InvoiceState Alloc21 Other
  data_rgb21 : Alloc21 → InvoiceState Alloc21 Other
  other_state : Other → InvoiceState Alloc21 Other

-- `Beneficiary`, with the address and the close method of a `Pay2Vout`
pub data Beneficiary (Secret Address : Type 0) : Type 0 where
  blinded_seal : Secret → Beneficiary Secret Address
  witness_vout : Address → CloseMethod → Beneficiary Secret Address

pub record RgbInvoice (Alloc21 Other Secret Address Network : Type 0) : Type 0 where
  pub contract : Option ℕ
  pub iface : Option String
  pub operation : Option String
  pub assignment : Option String
  pub owned_state : InvoiceState Alloc21 Other
  pub beneficiary : Beneficiary Secret Address
  pub network : Network

-- `PsbtMeta`
pub record PsbtMeta (Rest : Type 0) : Type 0 where
  pub change_vout : Option ℕ
  pub rest : Rest

pub record TransferParams (TxParams : Type 0) : Type 0 where
  pub tx : TxParams
  pub min_amount : ℕ

pub record PayApi (Output Transition CloseMethodSet : Type 0) : Type 1 where
  -- invoices
  pub Alloc21 : Type 0
  pub Other : Type 0
  pub Secret : Type 0
  pub Address : Type 0
  pub Network : Type 0
  pub Script : Type 0
  pub script_pubkey : Address → Script
  pub same_script : Script → Script → Bool
  pub is_p2tr : Script → Bool
  pub as_reduced_unsafe : XOutputSeal → OutputSeal
  -- the stock
  pub Stock : Type 0
  pub StockError : Type 0
  pub to_string : StockError → String
  pub iface : Stock → String → Result StockError Iface
  pub Contract : Type 0
  pub contract_iface : Stock → ℕ → String → Result StockError Contract
  pub Assignment : Type 0
  pub contract_assignments_for : Stock → ℕ → List XOutpoint → Result StockError (List Assignment)
  pub ContractError : Type 0
  pub DataState : Type 0
  pub same_data : DataState → DataState → Bool
  pub data_from : Alloc21 → DataState
  pub fungible :
      Contract
      → String
      → (XOutpoint → Bool)
      → Result ContractError (List (Allocation XOutputSeal ℕ))
  pub data_of :
      Contract
      → String
      → (XOutpoint → Bool)
      → Result ContractError (List (Allocation XOutputSeal DataState))
  -- a batch, as its transitions in order and its set of close methods
  pub compose :
      Stock
      → RgbInvoice Alloc21 Other Secret Address Network
      → List XOutputSeal
      → CloseMethod
      → Option ℕ
      → Option ℕ
      → Result StockError (List (TransitionInfo Transition) × CloseMethodSet)
  -- PSBT outputs, and the PSBT constructor
  pub script : Output → Script
  pub vout : Output → ℕ
  pub is_tapret_host : Output → Bool
  pub HostError : Type 0
  pub set_tapret_host : Output → Output × Result HostError (Unit {0})
  pub set_opret_host : Output → Output × Result HostError (Unit {0})
  pub sort_outputs_by : (Output → Bool) → Psbt Output → Psbt Output × Result HostError (Unit {0})
  -- `construct_output_expect` with an empty `OP_RETURN`, and what is done with the new output
  pub construct_op_return :
      Psbt Output
      → (Output → Output × Result HostError (Unit {0}))
      → Psbt Output × Result HostError (Unit {0})
  pub complete_construction : Psbt Output → Psbt Output
  pub Rest : Type 0
  pub TxParams : Type 0
  pub tx_with_fee : ℕ → TxParams
  pub set_change_keychain : TxParams → ℕ → TxParams
  pub ConstructionError : Type 0
  -- the tweak of a terminal, and the completion of a payment
  pub TapretCommitment : Type 0
  pub TapretKeyError : Type 0
  pub not_taproot_output : TapretKeyError
  pub is_tapret_dbc_output : Output → Bool
  pub terminal_derivation : Output → Option Terminal
  pub tapret_commitment : Output → Result TapretKeyError TapretCommitment
  pub txid : Psbt Output → ℕ
  pub Transfer : Type 0

-- `WalletProvider`: what the payment asks of a wallet.
pub record WalletProvider {Output Transition CloseMethodSet : Type 0}
    (api : PayApi Output Transition CloseMethodSet) (W : Type 0) : Type 0 where
  pub include_outpoint : W → XOutpoint → Bool
  pub seal_close_method : W → CloseMethod
  pub add_tapret_tweak :
      W → Terminal → api.TapretCommitment → W × Result TapTweakAlreadyAssigned (Unit {0})
  -- `PsbtConstructor::construct_psbt`, on outpoints and beneficiaries
  pub construct_psbt :
      W
      → List Outpoint
      → List (api.Address × api.Network × ℕ)
      → api.TxParams
      → W × Result api.ConstructionError (Psbt Output × PsbtMeta api.Rest)
