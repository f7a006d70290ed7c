-- ===== src/Reference.antt =====
-- crates/lab-core/src/reference.rs: the targets of control loops. Ramp has the fixed and the moving
-- target, Runtime the reference with its revision; Trajectory and Revisions prove.
pub mod Ramp
pub mod Runtime
pub mod Trajectory
pub mod Revisions
mod Examples
