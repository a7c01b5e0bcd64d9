-- ===== src/Tests.antt =====
-- The theorems at concrete inputs, with small instances of what the program takes from other crates.
mod Descriptor
mod Wallet
mod Store
mod Resolver
mod Psbt
mod Embed
mod Pay
mod Transfer
mod CliEnv
mod CliExec
mod Cli
mod Choose
