-- ===== src/Sessions.antt =====
-- apps/lab-runtime/src/sessions.rs: session scopes and request numbers of one Runtime process.
-- Types, Mutation, ScopeId, Scopes, Retention and Store are the code, History its calls. Keyed,
-- Distinct, Lookups and Records have the lemmas on the map and on records; Decisions and Replay are
-- about admission; Marks and Once about the high-water marks; Eviction, Stamps and Global about the
-- loops that evict; Bounds, Opening, Admitting, Completing, Enforcing and Limits about the limits;
-- Retaining, Survival and Histories about pending records.
pub mod Types
pub mod Mutation
pub mod ScopeId
pub mod Scopes
pub mod Retention
pub mod Store
pub mod History
pub mod Keyed
pub mod Lookups
pub mod Distinct
pub mod Records
pub mod Eviction
pub mod Stamps
pub mod Global
pub mod Decisions
pub mod Replay
pub mod Marks
pub mod Once
pub mod Bounds
pub mod Opening
pub mod Admitting
pub mod Completing
pub mod Enforcing
pub mod Limits
pub mod Retaining
pub mod Survival
pub mod Histories
pub mod Examples
