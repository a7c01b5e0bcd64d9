-- ===== src/Cli.antt =====
-- The command line: cli/src/.
pub mod Io
pub mod Env
pub mod Args
pub mod Command
pub mod Stash
pub mod Spend
pub mod Files
pub mod Import
pub mod State
pub mod Genesis
pub mod Issue
pub mod Inspect
pub mod Dump
pub mod Exec
pub mod Keeps
pub mod Reads
pub mod ReadState
pub mod ReadOnly
pub mod Durable
pub mod Paid
pub mod Loaded
pub mod Server
pub mod Settled
pub mod Connected
pub mod Accepted
pub mod Imported
pub mod Completes
pub mod Composed
pub mod Composes
pub mod Ends
pub mod Recomposes
pub mod Issued
pub mod Invoiced
pub mod Code
