-- ===== src/Psbt.antt =====
-- RGB data in a PSBT: the psrgbt crate, psbt/src/.
pub mod Key
pub mod Api
pub mod Consumer
pub mod Velocity
pub mod Transition
pub mod Push
pub mod Inputs
pub mod Sets
pub mod Methods
pub mod Bundles
pub mod Stored
pub mod Bundled
pub mod Embed
pub mod EmbedInputs
pub mod Embedded
pub mod Commit
pub mod Anchors
pub mod Committed
pub mod EmbedStored
