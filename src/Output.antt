-- ===== src/Output.antt =====
-- crates/lab-core/src/output.rs and output/authority.rs: the permission state machine of one
-- actuator. Types is its vocabulary, Authority the state with its core methods, Transport the
-- methods that the transport executor calls, Commands the command handler and the steps of a run.
pub mod Types
pub mod Authority
pub mod Lifecycle
pub mod Sending
pub mod Settlement
pub mod Transport
pub mod Readback
pub mod Commands
pub mod Permission
pub mod Invariant
pub mod Frame
pub mod Queries
pub mod Safety
pub mod Evidence
mod Examples
