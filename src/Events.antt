-- ===== src/Events.antt =====
-- apps/lab-runtime/src/events.rs: the bounded log of published facts. Targets are what it observes, Log
-- its state with append, observation and replay, Publication the reservation of a configuration
-- apply; History, Observing, Committing, Calls and Replay prove against the unbounded log, Pending
-- and Reserved about the reservation.
pub mod Targets
pub mod Log
pub mod Publication
pub mod History
pub mod Replay
pub mod Observing
pub mod Committing
pub mod Calls
pub mod Pending
pub mod Reserved
mod Examples
