-- ===== src/Wallet.antt =====
-- The wallet as RGB sees it: src/wallet.rs, and the wallet methods of src/pay.rs.
pub mod Iface
pub mod Errors
pub mod Filter
pub mod History
