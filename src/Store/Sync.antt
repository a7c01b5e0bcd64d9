-- ===== src/Store/Sync.antt =====
-- `StoredStock` of src/store.rs and its file: runs of mutable borrows, and the drop at the end.
use mathlib.Core.Path.{subst}
use rgb.Base.{◌≡◌, refl, inl, inr, false, some, ok, arith, List, [], ◌∷◌, Bool-cases}
use rgb.Store.Disk.{FileStore, StoreLaws}
use rgb.Store.Stock
use rgb.Store.Stock.{StoredStock}

module _ {Disk FilePath S Err : Type 0} (fs : FileStore Disk FilePath S Err) where
  -- a run of mutable borrows
  unfoldable pub borrow_all :
      StoredStock FilePath S → List (S → S × Unit {0}) → StoredStock FilePath S
  borrow_all s [] = s
  borrow_all s (body ∷ rest) = borrow_all (Stock.deref_mut fs s body).0 rest

  abbrev pub StockSynced : StoredStock FilePath S → Disk → Type 0
  StockSynced s disk = s.dirty ≡ false → fs.load s.stock_path disk ≡ some s.stock

  borrow_all-keeps :
      (s : StoredStock FilePath S) (disk : Disk) (bodies : List (S → S × Unit {0}))
      → StockSynced s disk
      → StockSynced (borrow_all s bodies) disk × ((borrow_all s bodies).stock_path ≡ s.stock_path)
  unfolding borrow_all Stock.deref_mut
  borrow_all-keeps s disk [] h = (h, refl)
  borrow_all-keeps s disk (body ∷ rest) h =
      borrow_all-keeps (Stock.deref_mut fs s body).0 disk rest (λ e. cc)

  pub drop_synced :
      StoreLaws fs
      → (s : StoredStock FilePath S) (disk : Disk) → StockSynced s disk
      → (Stock.drop fs s disk).1 ≡ ok tt
      → fs.load s.stock_path (Stock.drop fs s disk).0 ≡ some s.stock
  unfolding Stock.drop Stock.store
  drop_synced laws s disk h e = elim (Bool-cases s.dirty) [
    | inl d ↦ ground (arith, laws.load-store s.stock s.stock_path disk)
    | inr d ↦ ground arith
  ]

  -- A stock that is attached to the file it was loaded from, borrowed any number of times and
  -- dropped, is in that file then as the last borrow left it, unless the drop panics.
  pub stock_durable :
      StoreLaws fs
      → (path : FilePath) (stock : S) (disk : Disk) (bodies : List (S → S × Unit {0}))
      → fs.load path disk ≡ some stock
      → (Stock.drop fs (borrow_all (Stock.attach fs path stock) bodies) disk).1 ≡ ok tt
      → let s = borrow_all (Stock.attach fs path stock) bodies in
        fs.load path (Stock.drop fs s disk).0 ≡ some s.stock
  unfolding Stock.attach
  stock_durable laws path stock disk bodies h e =
      let s = borrow_all (Stock.attach fs path stock) bodies in
      let (synced, same) = borrow_all-keeps (Stock.attach fs path stock) disk bodies (λ _. h) in
      subst (λ p. fs.load p (Stock.drop fs s disk).0 ≡ some s.stock) same
        (drop_synced laws s disk synced e)
