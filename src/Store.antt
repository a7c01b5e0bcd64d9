-- ===== src/Store.antt =====
-- A stock and a wallet with the files they are kept in: src/store.rs.
pub mod Disk
pub mod Stock
pub mod Wallet
pub mod Sync
pub mod Session
pub mod Refined
