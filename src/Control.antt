-- ===== src/Control.antt =====
-- crates/lab-core/src/control.rs: Pid is the algorithm of one loop, Native the controller around it;
-- Limits and Windup prove.
pub mod Pid
pub mod Native
pub mod Limits
pub mod Windup
mod Examples
