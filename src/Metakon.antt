-- ===== src/Metakon.antt =====
-- crates/lab-core/src/metakon.rs: the framing of the Metakon profile. Codec is the frames' code, Scaling that
-- of scaled registers. Frames has
-- the canonical frames, Acceptance and Values prove which frames are accepted, Requests compares
-- requests.
pub mod Codec
pub mod Scaling
pub mod Frames
pub mod Acceptance
pub mod Values
pub mod Requests
pub mod Examples
mod ScalingExamples
