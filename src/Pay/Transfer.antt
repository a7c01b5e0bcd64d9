-- ===== src/Pay/Transfer.antt =====
-- `transfer` and `pay` of src/pay.rs: the commitment of the PSBT, the tweak of the wallet's
-- descriptor, and the consignment of the stock.
use rgb.Base.{
  ℕ, ◌%◌, ◌^◌, Bool, true, false, Option, none, some, List, [], ◌∷◌, Result, ok, err, panic,
  map_err, ok_or, ◌>>=◌, if◌then◌else◌, find, suc,
}
use rgb.Chain.{XChain, bitcoin, Outpoint}
use rgb.Descriptor.Keychain.{CloseMethod}
use rgb.Pay.Api.{Beneficiary, blinded_seal, witness_vout, TransferParams, PayApi, WalletProvider}
use rgb.Pay.Arrange.{Meta}
use rgb.Pay.Construct.{construct_psbt_rgb}
use rgb.Pay.Errors.{
  CompletionError, no_beneficiary_output, inconclusive_derivation, multiple_tweaks, tapret_key,
  commit, PayError, composition, completion, CompositionError,
}
use rgb.Pay.Inputs.{Invoice, Composed}
use rgb.Pay.Select.{AmountApi}
use rgb.Psbt.Anchors.{has_tapret}
use rgb.Psbt.Api.{KeyApi}
use rgb.Psbt.Bundles.{Psbt, BundleApi}
use rgb.Psbt.Commit.{AnchorSet, Fascia, CommitApi, CommitError, rgb_commit}
use rgb.Psbt.Transition.{TransitionApi}

-- `Iterator::position`
abbrev pub position {ℓ} : {A : Type ℓ} → (A → Bool) → List A → Option ℕ
position p [] = none
position p (x ∷ xs) =
    let rest = position p xs in
    elim (p x) [ true ↦ some 0 | false ↦ elim rest [ none ↦ none | some n ↦ some (suc n) ] ]

-- what the end of a payment asks of the stock
pub record TransferApi {Output Transition CloseMethodSet : Type 0}
    (api : PayApi Output Transition CloseMethodSet) (FasciaT : Type 0) : Type 0 where
  pub consume_fascia : api.Stock → FasciaT → api.Stock × Result api.StockError (Unit {0})
  -- `Stock::transfer` on the seals of outputs and on the secret seals
  pub transfer :
      api.Stock
      → ℕ
      → List (XChain (CloseMethod × Outpoint))
      → List (XChain api.Secret)
      → api.Stock × Result api.StockError api.Transfer

module _ (keys : KeyApi) (transitions : TransitionApi)
    (bundles : BundleApi transitions.Transition transitions.MpcError) (reversed : Bool)
    (commits : CommitApi bundles.Output)
    (api : PayApi bundles.Output transitions.Transition commits.CloseMethodSet) {W : Type 0}
    (provider : WalletProvider api W) where
  abbrev pub FasciaOf : Type 0
  FasciaOf =
      Fascia commits.Witness (AnchorSet commits.Tapret commits.Opret) (List (ℕ × bundles.Dichotomy))

  abbrev pub CommitErr : Type 0
  CommitErr =
      CommitError (rgb.Psbt.Bundles.Error keys transitions bundles reversed) commits.DbcError

  abbrev pub Completed : Type 0 → Type 0
  Completed A = Result (CompletionError api.TapretKeyError CommitErr) A

  -- the terminal and the commitment of the output that hosts the tapret commitment
  unfoldable pub tweak_of :
      List bundles.Output → Completed (rgb.Descriptor.Api.Terminal × api.TapretCommitment)
  tweak_of outputs = do
    output ← ok_or (find api.is_tapret_dbc_output outputs) (tapret_key api.not_taproot_output)
    terminal ← ok_or (api.terminal_derivation output) inconclusive_derivation
    c ← map_err (api.tapret_commitment output) tapret_key
    ok (terminal, c)

  abbrev pub tweaked :
      W → Completed (rgb.Descriptor.Api.Terminal × api.TapretCommitment) → W × Completed (Unit {0})
  tweaked wallet (err e) = (wallet, err e)
  tweaked wallet panic = (wallet, panic)
  tweaked wallet (ok (terminal, c)) =
      let (wallet', r) = provider.add_tapret_tweak wallet terminal c in
      (wallet', map_err r multiple_tweaks)

  -- the tweak is added to the descriptor if the anchor has a tapret part
  unfoldable pub add_tweak : W → FasciaOf → List bundles.Output → W × Completed (Unit {0})
  unfolding tweak_of
  add_tweak wallet fascia outputs =
      if has_tapret fascia.anchor then tweaked wallet (tweak_of outputs) else (wallet, ok tt)

  -- the secret seals and the witness seals of the beneficiary
  unfoldable pub beneficiary_seals :
      Psbt bundles.Output
      → Beneficiary api.Secret api.Address
      → Completed (List (XChain api.Secret) × List (XChain (CloseMethod × Outpoint)))
  beneficiary_seals psbt (blinded_seal s) = ok (bitcoin s ∷ [], [])
  beneficiary_seals psbt (witness_vout address method) = do
    v ←
        ok_or
          (position (λ o. api.same_script (api.script o) (api.script_pubkey address)) psbt.outputs)
          no_beneficiary_output
    ok ([], bitcoin (method, (api.txid psbt, v % 2 ^ 32)) ∷ [])

  module _ (transfers : TransferApi api FasciaOf) where
    abbrev pub stock_text : {A : Type 0} → Result api.StockError A → Completed A
    stock_text r = map_err r (λ e. CompletionError.stock (api.to_string e))

    abbrev pub consigned :
        api.Stock × Result api.StockError (Unit {0})
        → ℕ
        → List (XChain api.Secret) × List (XChain (CloseMethod × Outpoint))
        → api.Stock × Completed api.Transfer
    consigned (stock, ok _) contract_id (secrets, seals) =
        let (stock', r) = transfers.transfer stock contract_id seals secrets in
        (stock', stock_text r)
    consigned (stock, err e) contract_id seals = (stock, stock_text (err e))
    consigned (stock, panic) contract_id seals = (stock, panic)

    -- the last part: the stock takes the fascia and makes the consignment
    unfoldable pub consign :
        api.Stock
        → ℕ
        → FasciaOf
        → Completed (List (XChain api.Secret) × List (XChain (CloseMethod × Outpoint)))
        → api.Stock × Completed api.Transfer
    consign stock contract_id fascia (err e) = (stock, err e)
    consign stock contract_id fascia panic = (stock, panic)
    consign stock contract_id fascia (ok seals) =
        consigned (transfers.consume_fascia stock fascia) contract_id seals

    abbrev pub after_tweak :
        W × Completed (Unit {0})
        → api.Stock
        → ℕ
        → FasciaOf
        → Psbt bundles.Output
        → Beneficiary api.Secret api.Address
        → W × api.Stock × Completed api.Transfer
    after_tweak (wallet, err e) stock contract_id fascia psbt b = (wallet, stock, err e)
    after_tweak (wallet, panic) stock contract_id fascia psbt b = (wallet, stock, panic)
    after_tweak (wallet, ok _) stock contract_id fascia psbt b =
        let (stock', r) = consign stock contract_id fascia (beneficiary_seals psbt b) in
        (wallet, stock', r)

    abbrev pub after_commit :
        W
        → api.Stock
        → ℕ
        → Invoice api
        → Psbt bundles.Output
        → Result CommitErr FasciaOf
        → W × api.Stock × Psbt bundles.Output × Completed api.Transfer
    after_commit wallet stock contract_id invoice psbt (err e) =
        (wallet, stock, psbt, err (commit e))
    after_commit wallet stock contract_id invoice psbt panic = (wallet, stock, psbt, panic)
    after_commit wallet stock contract_id invoice psbt (ok fascia) =
        let (wallet', stock', r) =
          after_tweak (add_tweak wallet fascia psbt.outputs) stock contract_id fascia psbt
            invoice.beneficiary in
        (wallet', stock', psbt, r)

    abbrev pub transfer_of :
        W
        → api.Stock
        → Invoice api
        → Psbt bundles.Output
        → Option ℕ
        → W × api.Stock × Psbt bundles.Output × Completed api.Transfer
    transfer_of wallet stock invoice psbt none =
        (wallet, stock, psbt, err CompletionError.no_contract)
    transfer_of wallet stock invoice psbt (some contract_id) =
        let (psbt', r) = rgb_commit keys transitions bundles reversed commits psbt in
        after_commit wallet stock contract_id invoice psbt' r

    unfoldable pub transfer :
        W
        → api.Stock
        → Invoice api
        → Psbt bundles.Output
        → W × api.Stock × Psbt bundles.Output × Completed api.Transfer
    unfolding add_tweak beneficiary_seals consign
    transfer wallet stock invoice psbt = transfer_of wallet stock invoice psbt invoice.contract

    module _ (amounts : AmountApi) (debug : Bool) where
      abbrev pub PayErr : Type 0
      PayErr =
          PayError (CompositionError api.ConstructionError api.ContractError)
            (CompletionError api.TapretKeyError CommitErr)

      abbrev transferred :
          Invoice api
          → api.Stock
          → W × Composed api (Psbt bundles.Output × Meta api debug)
          → W × api.Stock × Result PayErr (Psbt bundles.Output × Meta api debug × api.Transfer)
      transferred invoice stock (wallet, err e) = (wallet, stock, err (composition e))
      transferred invoice stock (wallet, panic) = (wallet, stock, panic)
      transferred invoice stock (wallet, ok (psbt, meta)) =
          let (wallet', stock', psbt', r) = transfer wallet stock invoice psbt in
          (wallet', stock', map_err (r >>= λ t. ok (psbt', meta, t)) completion)

      unfoldable pub pay :
          W
          → api.Stock
          → Invoice api
          → TransferParams api.TxParams
          → W × api.Stock × Result PayErr (Psbt bundles.Output × Meta api debug × api.Transfer)
      unfolding transfer
      pay wallet stock invoice params = transferred invoice stock (
          construct_psbt_rgb keys transitions commits.has_opret_first api provider amounts debug
            wallet stock invoice params)
