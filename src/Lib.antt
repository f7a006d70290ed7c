-- ===== src/Lib.antt =====
-- lab-runtime: the control core of a laboratory runtime, modelled and verified.
--
-- The runtime reads instruments, drives heaters by hand or by a controller, and serves clients over
-- one Application API. This library models the parts of it that decide who may act and what may be
-- repeated, each in the modules named after it:
--
-- - Base: shared names, Boolean tests, lists, checked arithmetic, f64 values, results with state.
-- - Model (crates/lab-core/src/model.rs): scalar values, schemas and `ValueSpec::validate`.
-- - Output (crates/lab-core/src/output.rs, crates/lab-core/src/output/authority.rs): one actuator's
--   output authority. Types is the vocabulary; Authority the record with `check_lease`,
--   `request_safe` and `bump_epoch`; Lifecycle has `bind`, `acquire`, `renew` and `propose`; Sending
--   `begin`; Settlement `complete`; Transport the reservation and the send boundary of the transport
--   executor; Readback the acknowledgement and readback phase; Commands `command`, `tick` and the
--   calls of a run; Queries the admission of controllers. Permission, Invariant, Frame, Safety and
--   Evidence prove. The process counter of instances is an argument of `new`.
-- - Sessions (apps/lab-runtime/src/sessions.rs): the session store. Mutation, ScopeId, Scopes and
--   Retention are the payloads, the scope identities, the map and what is forgotten; Store has the
--   operations, History their runs. Decisions, Replay, Marks and Once prove. A mutation reaches the
--   store through the record Payload, so its theorems hold of any payload; the fuel of the eviction
--   loops is the number of records they may remove. The gate's answer is an argument.
-- - Metakon (crates/lab-core/src/metakon.rs): Codec is the checksum, the requests and the decoders;
--   Frames, Acceptance, Values and Requests prove. Scaling converts scaled registers.
-- - Delivery (apps/lab-runtime/src/server/coordination.rs): Connections is the coordinator of
--   connection identities, Client the queues of one connection; Active, Identities, Limits and Fairness prove.
--   What the JSON of a reply finishes is an argument. Owner hands out the waiting requests in turn.
-- - Processing (crates/lab-core/src/processing.rs): Ema is the filter, History its runs and Warmup
--   what an update tells. The platform's `exp_m1` is an argument.
-- - Reference (crates/lab-core/src/reference.rs): Ramp has the fixed and the moving target, Runtime
--   the reference with its revision; Trajectory and Revisions prove.
-- - Control (crates/lab-core/src/control.rs): Pid is the algorithm, Native the controller around it;
--   Limits and Windup prove.
-- - Signals (crates/lab-core/src/signal.rs): Sample and Buffer are observations and their bounded
--   buffer; Window and Ordering prove against the unbounded history.
-- - Lifecycle (crates/lab-core/src/runtime/controllers.rs): a controller with the authority of its
--   output. Loop is the state; Input and Proposal are what a tick computes; Stopping, Starting,
--   Ticking and Configuring the operations; Calls mixes them with what others do. Bounds, Proposing, Sound,
--   Revoking and Failing prove, Kept, Preserving, Entering and Running each operation's part. What
--   the executor of an output does with its authority is an argument, any of the authority's own
--   operations, and so is whether the counter of output attempts has a number left. Where the source
--   panics because a running controller has no lease, the model's tick fails.
-- - Events (apps/lab-runtime/src/events.rs): the bounded log of published facts. Log is its state
--   with append, observation and replay, Publication the reservation around a configuration apply,
--   Calls all of them in any order. Replay is the specification, which reads an unbounded history;
--   History, Observing, Committing and Calls say what every call adds to it, Pending and Reserved
--   are about the reservation.
--   The debug assertions and the diagnostics are left out.
--
-- Conventions. A method on `&mut self` that may fail is a function from the state to the result and
-- the new state, so that what it changed before it failed is kept. u64 counters and durations are
-- natural numbers with the checked additions of the standard library written out (Base.Checked);
-- times are nanoseconds. An f64 is an exact multiple of 2^-1074, an infinity or a NaN (Base.Float);
-- the two zeros are one value, and arithmetic rounds to the nearest, a tie to the even double
-- (Base.Arithmetic). A panic of the source is a result of its own that the theorems exclude. A deque
-- is a list, its bounded push and its last elements are in Base.Rings. The loops of `enforce_terminal_bounds`
-- take as fuel the number of records that they may remove (Sessions.Eviction and Sessions.Global
-- prove that it is enough), the decimal digits of a counter take the counter,
-- the rounding of a double the 2200 halvings beyond which it overflows; every other loop recurs
-- on a list.
--
-- Not modelled: sockets, serial ports, SQLite, JSON and TOML texts, threads and logging. They are
-- input and output or foreign libraries, and what the models use of them enters as an argument.
-- The Runtime dispatcher, the configuration lifecycle and the recorder are not modelled.
pub mod Base
pub mod Model
pub mod Output
pub mod Sessions
pub mod Delivery
pub mod Metakon
pub mod Signals
pub mod Processing
pub mod Reference
pub mod Control
pub mod Lifecycle
pub mod Events
