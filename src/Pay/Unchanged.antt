-- ===== src/Pay/Unchanged.antt =====
-- The errors of `transfer` of src/pay.rs and the stock.
use rgb.Base.{
  ℕ, ◌≡◌, refl, Bool, true, false, Option, none, some, Result, ok, err, panic, map_err, arith, List,
}
use rgb.Chain.{XChain, Outpoint}
use rgb.Descriptor.Keychain.{CloseMethod}
use rgb.Pay.Api.{PayApi, WalletProvider}
use rgb.Pay.Errors.{CompletionError}
use rgb.Pay.Inputs.{Invoice}
use rgb.Pay.Transfer.{
  TransferApi, FasciaOf, CommitErr, Completed, add_tweak, beneficiary_seals, consigned, consign,
  after_tweak, after_commit, transfer_of, transfer,
}
use rgb.Psbt.Api.{KeyApi}
use rgb.Psbt.Bundles.{Psbt, BundleApi}
use rgb.Psbt.Commit.{CommitApi, rgb_commit}
use rgb.Psbt.Transition.{TransitionApi}

-- the errors that come of the stock
abbrev pub is_stock : {K C : Type 0} → CompletionError K C → Bool
is_stock (CompletionError.stock text) = true
is_stock _ = false

module _ (keys : KeyApi) (transitions : TransitionApi)
    (bundles : BundleApi transitions.Transition transitions.MpcError) (reversed : Bool)
    (commits : CommitApi bundles.Output)
    (api : PayApi bundles.Output transitions.Transition commits.CloseMethodSet) {W : Type 0}
    (provider : WalletProvider api W)
    (transfers : TransferApi api
      (FasciaOf keys transitions bundles reversed commits api provider)) where
  abbrev Fault : Type 0
  Fault =
      CompletionError api.TapretKeyError
        (CommitErr keys transitions bundles reversed commits api provider)

  stock_text_only :
      {A : Type 0} (r : Result api.StockError A) (e : Fault)
      → ◌≡◌ {A = Completed keys transitions bundles reversed commits api provider A}
          (map_err r (λ x. CompletionError.stock (api.to_string x)))
          (err e)
      → is_stock e ≡ true
  stock_text_only (ok a) e h = absurd (ground arith)
  stock_text_only (err x) e h = ground arith
  stock_text_only panic e h = absurd (ground arith)

  consigned_fault :
      (s : api.Stock × Result api.StockError (Unit {0})) (contract_id : ℕ)
      (seals : List (XChain api.Secret) × List (XChain (CloseMethod × Outpoint))) (e : Fault)
      → (consigned keys transitions bundles reversed commits api provider transfers s contract_id
          seals).1
        ≡ err e
      → is_stock e ≡ true
  consigned_fault (stock, ok _) contract_id (secrets, seals) e h =
      stock_text_only (transfers.transfer stock contract_id seals secrets).1 e h
  consigned_fault (stock, err x) contract_id (secrets, seals) e h = ground arith
  consigned_fault (stock, panic) contract_id (secrets, seals) e h = absurd (ground arith)

  consign_keeps :
      (stock : api.Stock) (contract_id : ℕ)
      (fascia : FasciaOf keys transitions bundles reversed commits api provider)
      (seals : Completed keys transitions bundles reversed commits api provider
        (List (XChain api.Secret) × List (XChain (CloseMethod × Outpoint))))
      (e : Fault)
      → (consign keys transitions bundles reversed commits api provider transfers stock contract_id
          fascia seals).1
        ≡ err e
      → is_stock e ≡ false
      → (consign keys transitions bundles reversed commits api provider transfers stock contract_id
          fascia seals).0
        ≡ stock
  unfolding consign
  consign_keeps stock contract_id fascia (err x) e h s = refl
  consign_keeps stock contract_id fascia panic e h s = refl
  consign_keeps stock contract_id fascia (ok seals) e h s =
      let of_stock =
        consigned_fault (transfers.consume_fascia stock fascia) contract_id seals e h in
      absurd (ground arith)

  after_tweak_keeps :
      (t : W × Completed keys transitions bundles reversed commits api provider (Unit {0}))
      (stock : api.Stock) (contract_id : ℕ)
      (fascia : FasciaOf keys transitions bundles reversed commits api provider)
      (psbt : Psbt bundles.Output) (b : rgb.Pay.Api.Beneficiary api.Secret api.Address) (e : Fault)
      → (after_tweak keys transitions bundles reversed commits api provider transfers t stock
          contract_id fascia psbt b).2
        ≡ err e
      → is_stock e ≡ false
      → (after_tweak keys transitions bundles reversed commits api provider transfers t stock
          contract_id fascia psbt b).1
        ≡ stock
  after_tweak_keeps (wallet, err x) stock contract_id fascia psbt b e h s = refl
  after_tweak_keeps (wallet, panic) stock contract_id fascia psbt b e h s = refl
  after_tweak_keeps (wallet, ok _) stock contract_id fascia psbt b e h s =
      consign_keeps stock contract_id fascia
        (beneficiary_seals keys transitions bundles reversed commits api provider psbt b) e h s

  after_commit_keeps :
      (wallet : W) (stock : api.Stock) (contract_id : ℕ) (invoice : Invoice api)
      (psbt : Psbt bundles.Output)
      (r : Result
        (CommitErr keys transitions bundles reversed commits api provider)
        (FasciaOf keys transitions bundles reversed commits api provider))
      (e : Fault)
      → (after_commit keys transitions bundles reversed commits api provider transfers wallet stock
          contract_id invoice psbt r).3
        ≡ err e
      → is_stock e ≡ false
      → (after_commit keys transitions bundles reversed commits api provider transfers wallet stock
          contract_id invoice psbt r).1
        ≡ stock
  after_commit_keeps wallet stock contract_id invoice psbt (err x) e h s = refl
  after_commit_keeps wallet stock contract_id invoice psbt panic e h s = refl
  after_commit_keeps wallet stock contract_id invoice psbt (ok fascia) e h s =
      after_tweak_keeps
        (add_tweak keys transitions bundles reversed commits api provider wallet fascia
          psbt.outputs)
        stock contract_id fascia psbt invoice.beneficiary e h s

  transfer_of_keeps :
      (wallet : W) (stock : api.Stock) (invoice : Invoice api) (psbt : Psbt bundles.Output)
      (contract : Option ℕ) (e : Fault)
      → (transfer_of keys transitions bundles reversed commits api provider transfers wallet stock
          invoice psbt contract).3
        ≡ err e
      → is_stock e ≡ false
      → (transfer_of keys transitions bundles reversed commits api provider transfers wallet stock
          invoice psbt contract).1
        ≡ stock
  transfer_of_keeps wallet stock invoice psbt none e h s = refl
  transfer_of_keeps wallet stock invoice psbt (some contract_id) e h s =
      let (psbt', r) = rgb_commit keys transitions bundles reversed commits psbt in
      after_commit_keeps wallet stock contract_id invoice psbt' r e h s

  -- A `transfer` that ends with an error leaves the stock as it was, unless the error is one of the
  -- stock itself: a missing contract, a failed commitment, a refused tweak and a missing output of
  -- the beneficiary come before the stock is touched.
  pub transfer-keeps_stock :
      (wallet : W) (stock : api.Stock) (invoice : Invoice api) (psbt : Psbt bundles.Output)
      (e : Fault)
      → (transfer keys transitions bundles reversed commits api provider transfers wallet stock
          invoice psbt).3
        ≡ err e
      → is_stock e ≡ false
      → (transfer keys transitions bundles reversed commits api provider transfers wallet stock
          invoice psbt).1
        ≡ stock
  unfolding transfer
  transfer-keeps_stock wallet stock invoice psbt e h s =
      transfer_of_keeps wallet stock invoice psbt invoice.contract e h s
