-- ===== src/Descriptor.antt =====
-- The RGB descriptors: src/descriptor.rs.
pub mod Keychain
pub mod Api
pub mod Tapret
pub mod Descr
pub mod Keychains
pub mod Tweaks
