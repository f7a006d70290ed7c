-- ===== src/Signals.antt =====
-- crates/lab-core/src/signal.rs: observations and the bounded buffer of the recent ones. Sample and
-- Buffer have their operations; Window proves that the buffer is the end of the whole history.
pub mod Quality
pub mod Sample
pub mod Buffer
pub mod Window
pub mod Ordering
mod Examples
