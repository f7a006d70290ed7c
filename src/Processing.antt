-- ===== src/Processing.antt =====
-- crates/lab-core/src/processing.rs: the exponential moving average of a control loop. Ema has its
-- state and operations, History its runs; Soundness, Warmup and Atomicity prove.
pub mod Ema
pub mod History
pub mod Warmup
mod Examples
