-- ===== src/Store/Wallet.antt =====
-- `StoredWallet` of src/store.rs: a stock and a wallet with their files. The wallet's own methods
-- are those of `WalletProvider`, which src/pay.rs implements, and of `WalletStock`.
use rgb.Base.{Bool, true, false, Option, none, some, Result, ok, expect_ok, if◌then◌else◌, ◌>>◌}
use rgb.Store.Disk.{FileStore}

-- Methods of a wallet `W` over a stock `S`. What is passed by `&mut` is returned.
pub record WalletApi (W S : Type 0) : Type 1 where
  pub RgbInvoice : Type 0
  pub TransferParams : Type 0
  pub Psbt : Type 0
  pub PsbtMeta : Type 0
  pub Transfer : Type 0
  pub ContractId : Type 0
  pub IfaceRef : Type 0
  pub History : Type 0
  pub PayError : Type 0
  pub CompositionError : Type 0
  pub CompletionError : Type 0
  pub WalletError : Type 0
  pub pay :
      W → S → RgbInvoice → TransferParams → W × S × Result PayError (Psbt × PsbtMeta × Transfer)
  pub construct_psbt_rgb :
      W → S → RgbInvoice → TransferParams → W × Result CompositionError (Psbt × PsbtMeta)
  pub transfer : W → S → RgbInvoice → Psbt → W × S × Psbt × Result CompletionError Transfer
  pub fungible_history : S → W → ContractId → IfaceRef → Result WalletError History

pub record StoredWallet (FilePath W S : Type 0) : Type 0 where
  pub stock_path : FilePath
  pub wallet_path : Option FilePath
  pub stock : S
  pub wallet : W
  pub stock_dirty : Bool
  pub wallet_dirty : Bool

module _ {Disk FilePath W S StockErr WalletErr : Type 0}
    (stock_fs : FileStore Disk FilePath S StockErr)
    (wallet_fs : FileStore Disk FilePath W WalletErr) (api : WalletApi W S) where
  open api use {
    RgbInvoice, TransferParams, Psbt, PsbtMeta, Transfer, ContractId, IfaceRef, History, PayError,
    CompositionError, CompletionError, WalletError,
  }

  abbrev pub Stored : Type 0
  Stored = StoredWallet FilePath W S

  unfoldable pub attach : FilePath → Option FilePath → S → W → Stored
  attach stock_path wallet_path stock wallet = record {
    stock_path = stock_path;
    wallet_path = wallet_path;
    stock = stock;
    wallet = wallet;
    stock_dirty = false;
    wallet_dirty = false;
  }

  -- `stock_mut` and `wallet_mut`, with what the caller does through the borrow
  unfoldable pub stock_mut : {A : Type 0} → Stored → (S → S × A) → Stored × A
  stock_mut s body =
      let (stock, a) = body s.stock in (record s { stock = stock; stock_dirty = true }, a)

  unfoldable pub wallet_mut : {A : Type 0} → Stored → (W → W × A) → Stored × A
  wallet_mut s body =
      let (wallet, a) = body s.wallet in (record s { wallet = wallet; wallet_dirty = true }, a)

  unfoldable pub fungible_history : Stored → ContractId → IfaceRef → Result WalletError History
  fungible_history s contract_id iface = api.fungible_history s.stock s.wallet contract_id iface

  unfoldable pub pay :
      Stored → RgbInvoice → TransferParams → Stored × Result PayError (Psbt × PsbtMeta × Transfer)
  pay s invoice params =
      let (wallet, stock, r) = api.pay s.wallet s.stock invoice params in
      (record s { stock = stock; wallet = wallet; stock_dirty = true; wallet_dirty = true }, r)

  unfoldable pub construct_psbt :
      Stored → RgbInvoice → TransferParams → Stored × Result CompositionError (Psbt × PsbtMeta)
  construct_psbt s invoice params =
      let (wallet, r) = api.construct_psbt_rgb s.wallet s.stock invoice params in
      (record s { wallet = wallet; wallet_dirty = true }, r)

  unfoldable pub transfer :
      Stored → RgbInvoice → Psbt → Stored × Psbt × Result CompletionError Transfer
  transfer s invoice psbt =
      let (wallet, stock, psbt', r) = api.transfer s.wallet s.stock invoice psbt in
      (
        record s { stock = stock; wallet = wallet; stock_dirty = true; wallet_dirty = true },
        psbt',
        r,
      )

  abbrev store_stock : Stored → Disk → Disk × Result StockErr (Unit {0})
  store_stock s disk =
      if s.stock_dirty then stock_fs.store s.stock s.stock_path disk else (disk, ok tt)

  abbrev store_wallet_at : Stored → Option FilePath → Disk → Disk × Result WalletErr (Unit {0})
  store_wallet_at s (some path) disk = wallet_fs.store s.wallet path disk
  store_wallet_at s none disk = (disk, ok tt)

  abbrev store_wallet : Stored → Disk → Disk × Result WalletErr (Unit {0})
  store_wallet s disk =
      if s.wallet_dirty then store_wallet_at s s.wallet_path disk else (disk, ok tt)

  -- Both parts are stored, whether or not the first fails: `r1.and(r2).expect(…)`.
  unfoldable pub store : {E : Type 0} → Stored → Disk → Disk × Result E (Unit {0})
  store s disk =
      let (disk1, r1) = store_stock s disk in
      let (disk2, r2) = store_wallet s disk1 in (disk2, expect_ok r1 >> expect_ok r2)

  unfoldable pub drop : {E : Type 0} → Stored → Disk → Disk × Result E (Unit {0})
  unfolding store
  drop s disk = store s disk
