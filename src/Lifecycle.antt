-- ===== src/Lifecycle.antt =====
-- crates/lab-core/src/runtime/controllers.rs: the lifecycle of a native controller over the authority
-- of its output. Loop is one controller with its parts; Input and Proposal what a tick computes;
-- Starting, Ticking and Stopping its operations, Calls their runs. Bounds, Proposing and Sound
-- prove.
pub mod Loop
pub mod Input
pub mod Proposal
pub mod Bounds
pub mod Stopping
pub mod Starting
pub mod Ticking
pub mod Configuring
pub mod Sound
pub mod Kept
pub mod Revoking
pub mod Failing
pub mod Preserving
pub mod Entering
pub mod Running
pub mod Proposing
pub mod Calls
mod Examples
