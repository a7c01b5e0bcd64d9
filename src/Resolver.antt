-- ===== src/Resolver.antt =====
-- The witness resolvers: src/resolvers/.
pub mod Api
pub mod Any
pub mod Terminals
pub mod Esplora
pub mod Electrum
pub mod Locate
pub mod Ends
