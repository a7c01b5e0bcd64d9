-- ===== src/Pay/Construct.antt =====
-- `construct_psbt_rgb` of src/pay.rs, put together.
use rgb.Base.{
  Bool, true, false, List, Result, ok, err, panic, map_err, ok_or, expect_ok, ◌>>=◌, ◌>>◌,
}
use rgb.Descriptor.Keychain.{CloseMethod, to_keychain, for_method}
use rgb.Pay.Api.{XOutputSeal, TransferParams, PayApi, WalletProvider}
use rgb.Pay.Arrange.{Meta, arrange}
use rgb.Pay.Errors.{CompositionError, no_iface, construction, embed}
use rgb.Pay.Inputs.{
  Invoice, Composed, operation_of, assignment_of, prev_outputs_of, beneficiaries_of,
  prev_outpoints_of,
}
use rgb.Pay.Select.{AmountApi}
use rgb.Psbt.Api.{KeyApi}
use rgb.Psbt.Bundles.{Psbt}
use rgb.Psbt.Embed.{TransitionInfo, rgb_embed}
use rgb.Psbt.Transition.{TransitionApi}

module _ (keys : KeyApi) (transitions : TransitionApi) {Output CloseMethodSet : Type 0}
    (has_opret_first : CloseMethodSet → Bool)
    (api : PayApi Output transitions.Transition CloseMethodSet) {W : Type 0}
    (provider : WalletProvider api W) (amounts : AmountApi) (debug : Bool) where
  open api use {
    Stock, StockError, to_string, iface, contract_iface, compose, set_opret_host, HostError,
    construct_op_return, complete_construction, set_change_keychain,
  }

  abbrev stock_text : {A : Type 0} → Result StockError A → Composed api A
  stock_text r = map_err r (λ e. CompositionError.stock (to_string e))

  -- what comes before the wallet makes the PSBT: the outputs to spend
  unfoldable pub choose : W → Stock → Invoice api → Composed api (List XOutputSeal)
  unfolding operation_of assignment_of prev_outputs_of
  choose wallet stock invoice = do
    contract_id ← ok_or invoice.contract CompositionError.no_contract
    iface_name ← ok_or invoice.iface no_iface
    i ← stock_text (iface stock iface_name)
    contract ← stock_text (contract_iface stock contract_id iface_name)
    operation ← operation_of api invoice i
    assignment_name ← assignment_of api invoice i operation
    prev_outputs_of api provider amounts stock wallet contract_id contract assignment_name
        invoice.owned_state

  -- an opret host is added if the batch closes seals by opret
  abbrev pub with_opret : Bool → Psbt Output → Composed api (Psbt Output)
  with_opret false p = ok p
  with_opret true p = let (p', r) = construct_op_return p set_opret_host in expect_ok r >> ok p'

  abbrev embedded :
      Meta api debug
      → Psbt Output × Result rgb.Psbt.Embed.EmbedError (Unit {0})
      → Composed api (Psbt Output × Meta api debug)
  embedded meta (p, r) = map_err r embed >> ok (p, meta)

  -- what follows once the wallet has made the PSBT
  unfoldable pub complete :
      CloseMethod
      → Stock
      → Invoice api
      → List XOutputSeal
      → Result api.ConstructionError (Psbt Output × Meta api debug)
      → Composed api (Psbt Output × Meta api debug)
  unfolding arrange
  complete method stock invoice prev_outputs made = do
    (psbt, meta) ← map_err made construction
    (p1, meta1, beneficiary_vout) ← arrange api debug psbt meta invoice.beneficiary
    (batch, methods) ←
        stock_text (compose stock invoice prev_outputs method beneficiary_vout meta1.change_vout)
    p2 ← with_opret (has_opret_first methods) p1
    embedded meta1 (rgb_embed keys transitions (complete_construction p2) batch)

  abbrev construct_with :
      W
      → Stock
      → Invoice api
      → TransferParams api.TxParams
      → Composed api (List XOutputSeal)
      → W × Composed api (Psbt Output × Meta api debug)
  construct_with wallet stock invoice params (err e) = (wallet, err e)
  construct_with wallet stock invoice params panic = (wallet, panic)
  construct_with wallet stock invoice params (ok prev_outputs) =
      let method = provider.seal_close_method wallet in
      let tx = set_change_keychain params.tx (to_keychain (for_method method)) in
      let (wallet', made) =
        provider.construct_psbt wallet (prev_outpoints_of api prev_outputs)
          (beneficiaries_of api invoice params.min_amount invoice.beneficiary) tx in
      (wallet', complete method stock invoice prev_outputs made)

  unfoldable pub construct_psbt_rgb :
      W
      → Stock
      → Invoice api
      → TransferParams api.TxParams
      → W × Composed api (Psbt Output × Meta api debug)
  unfolding choose complete
  construct_psbt_rgb wallet stock invoice params =
      construct_with wallet stock invoice params (choose wallet stock invoice)
