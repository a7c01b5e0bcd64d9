-- ===== src/Store/Stock.antt =====
-- `StoredStock` of src/store.rs: a stock that is written back when it goes out of scope, if it was
-- borrowed mutably before.
use rgb.Base.{Bool, true, false, Result, ok, expect_ok, if◌then◌else◌}
use rgb.Store.Disk.{FileStore}

pub record StoredStock (FilePath S : Type 0) : Type 0 where
  pub stock_path : FilePath
  pub stock : S
  pub dirty : Bool

module _ {Disk FilePath S Err : Type 0} (fs : FileStore Disk FilePath S Err) where
  unfoldable pub attach : FilePath → S → StoredStock FilePath S
  attach path stock = record { stock_path = path; stock = stock; dirty = false }

  unfoldable pub deref : StoredStock FilePath S → S
  deref s = s.stock

  -- `deref_mut`, with what the caller does through the borrow: it changes the stock and returns `A`
  unfoldable pub deref_mut :
      {A : Type 0} → StoredStock FilePath S → (S → S × A) → StoredStock FilePath S × A
  deref_mut s body = let (stock, a) = body s.stock in (record s { stock = stock; dirty = true }, a)

  -- The error type of a method that only panics is arbitrary; it is that of the file system.
  unfoldable pub store : StoredStock FilePath S → Disk → Disk × Result Err (Unit {0})
  store s disk =
      if s.dirty
      then (let (disk', r) = fs.store s.stock s.stock_path disk in (disk', expect_ok r))
      else (disk, ok tt)

  unfoldable pub drop : StoredStock FilePath S → Disk → Disk × Result Err (Unit {0})
  unfolding store
  drop s disk = store s disk
