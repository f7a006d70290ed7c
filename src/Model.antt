-- ===== src/Model.antt =====
-- crates/lab-core/src/model.rs: scalar values, their schemas and units, and the validation that
-- every adapter shares. Identities (InstrumentId, ParameterId) are their u64.
mod Defs
mod Laws
unfoldable pub use Defs.*
pub use Laws.*
