-- ===== src/Store/Disk.antt =====
-- What src/store.rs takes from elsewhere. `Disk` is the file system; `StoreFs::store` of rgbstd and
-- `Wallet::store` of bpwallet write a value to a path and may fail, and `load` reads one back.
use rgb.Base.{◌≡◌, ◌≢◌, Option, some, Result, ok}

pub record FileStore (Disk FilePath Value Err : Type 0) : Type 0 where
  pub store : Value → FilePath → Disk → Disk × Result Err (Unit {0})
  pub load : FilePath → Disk → Option Value

-- A value that was stored is loaded, and what another path holds stays.
pub record StoreLaws {Disk FilePath Value Err : Type 0} (fs : FileStore Disk FilePath Value Err)
    : Type 0 where
  pub load-store :
      (v : Value) (p : FilePath) (d : Disk)
      → (fs.store v p d).1 ≡ ok tt
      → fs.load p (fs.store v p d).0 ≡ some v

-- To store by `fs` leaves what `other` loads from other paths.
pub record Apart {Disk FilePath Value Err Value' Err' : Type 0}
    (fs : FileStore Disk FilePath Value Err) (other : FileStore Disk FilePath Value' Err')
    : Type 0 where
  pub load-store_ne :
      (v : Value) (p q : FilePath) (d : Disk)
      → p ≢ q
      → other.load q (fs.store v p d).0 ≡ other.load q d
