-- ===== src/Delivery.antt =====
-- apps/lab-runtime/src/server/coordination.rs: Connections is the admission of connections, Client
-- the queues of one connection, Owner the request queues of the owner, whose rotation is in Fairness. Active and Identities are about identities, Limits about the queues.
pub mod Connections
pub mod Active
pub mod Identities
pub mod Client
pub mod Owner
pub mod Fairness
pub mod Limits
pub mod Examples
