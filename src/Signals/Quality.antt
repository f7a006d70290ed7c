-- ===== src/Signals/Quality.antt =====
-- crates/lab-core/src/signal.rs: whether an observation holds a usable value.
pub data SampleQuality : Type 0 where
  good unavailable : SampleQuality
