-- ===== src/Output/Commands.antt =====
-- crates/lab-core/src/output/authority.rs: the command handler, manual attempts, and `Op`, every call that an authority can get.
use lab_runtime.Base.{
  ℕ, List, [], ◌∷◌, Bool, true, false, ◌||◌, not, Option, none, some, is_some, F64, ok, guard,
  ◌>>=◌, ◌>>◌, return, check, modify, leb, u64_eq, if◌then◌else◌,
}
use lab_runtime.Model.{output, invalid_state}
use lab_runtime.Output.Types.{
  OutputState, OutputOwner, SafeProfile, OutputLease, DispatchId, DispatchOutcome, OutputIntent,
}
use lab_runtime.Output.Authority.{OutputAuthority, Method, profile, check_lease, request_safe}
use lab_runtime.Output.Lifecycle.{
  OutputResult, OutputProposal, bind, acquire, renew, renew_native, propose,
}
use lab_runtime.Output.Sending.{begin}
use lab_runtime.Output.Settlement.{complete}
use lab_runtime.Output.Transport.{
  Reservation, reserve_transport, begin_transport, abort_transport, fail_transport_before_send,
  transport_uncertain,
}
use lab_runtime.Output.Readback.{
  acknowledge_transport, complete_transport_readback, complete_transport_readback_exact,
  fail_transport_readback, complete_transport,
}

pub data OutputCommand : Type 0 where
  bind_profile : SafeProfile → OutputCommand
  request_safe_output : OutputCommand
  acquire_lease : OutputOwner → ℕ → OutputCommand
  renew_manual : OutputLease → ℕ → OutputCommand
  release : OutputLease → OutputCommand
  trip acknowledge_fault : OutputCommand
  propose_value : OutputProposal → OutputCommand
  begin_dispatch : OutputCommand
  complete_dispatch : DispatchId → DispatchOutcome → OutputCommand
  tick : OutputCommand

unfoldable pub is_manual : OutputOwner → Bool
is_manual (OutputOwner.manual n) = true
is_manual (OutputOwner.automatic n) = false

unfoldable pub is_faulted : OutputState → Bool
is_faulted OutputState.fault_latched = true
is_faulted _ = false

unfoldable pub clear_fault : OutputAuthority → OutputAuthority
clear_fault a = record a {
  snapshot = record (a.snapshot) { fault_latched = false; state = OutputState.disarmed };
}

unfoldable pub acknowledge : Method OutputResult
unfolding clear_fault is_faulted
acknowledge = do
  check (λ a.
      guard
        (not (
          not (is_faulted a.snapshot.state)
          || not a.snapshot.safe_confirmed
          || is_some a.snapshot.in_flight
          || a.safe_obligation_pending))
        (output invalid_state))
  modify clear_fault
  return OutputResult.updated

unfoldable pub safe_with_profile : Bool → Method OutputResult
unfolding profile
safe_with_profile fault = do _ ← check profile; request_safe fault; return OutputResult.updated

unfoldable pub release_lease : OutputLease → ℕ → Method OutputResult
release_lease l at = do check (check_lease l at); request_safe false; return OutputResult.updated

unfoldable pub renew_manual_lease : OutputLease → ℕ → ℕ → Method OutputResult
unfolding is_manual
renew_manual_lease l lifetime at = do
  check (λ a. guard (is_manual l.owner) (output invalid_state))
  replacement ← renew l lifetime at
  return (OutputResult.lease replacement)

unfoldable pub command : OutputCommand → ℕ → Method OutputResult
command (bind_profile p) at = bind p
command request_safe_output at = safe_with_profile false
command (acquire_lease owner lifetime) at = acquire owner lifetime at
command (renew_manual l lifetime) at = renew_manual_lease l lifetime at
command (release l) at = release_lease l at
command trip at = safe_with_profile true
command acknowledge_fault at = acknowledge
command (propose_value q) at = propose q at
command begin_dispatch at = begin at
command (complete_dispatch id outcome) at = complete id outcome at
command tick at = return OutputResult.updated

-- The watchdog `OutputAuthority::tick`.
unfoldable pub watchdog : ℕ → Method (Unit {0})
watchdog at a = elim a.snapshot.lease [
  | none ↦ (ok tt, a)
  | some l ↦ if leb l.expires at then request_safe false a else (ok tt, a)
]

-- `none` is the panic of `expect("validated manual proposal")`.
unfoldable pub track_manual_attempt : ℕ → Bool → OutputAuthority → Option OutputAuthority
track_manual_attempt id simulated a = elim a.snapshot.requested [
  | none ↦ none
  | some x ↦ some (record a {
    snapshot = record (a.snapshot) {
      manual_attempt = some (record {
        virtual_simulation = simulated;
        id = id;
        requested = x;
        dispatch = none;
        terminal = false;
        outcome = none;
        sent = none;
        acknowledged = none;
        readback = none;
        reported_readback = none;
        readback_failure = none;
      });
    };
  })
]

pub data Op : Type 0 where
  commands : OutputCommand → ℕ → Op
  ticks : ℕ → Op
  renews : OutputLease → ℕ → ℕ → Op
  reserves : ℕ → Reservation → Op
  begins : OutputIntent → ℕ → Op
  aborts fails : OutputIntent → Op
  loses : DispatchId → Op
  acknowledges : DispatchId → ℕ → Op
  reads_back : DispatchId → F64 → ℕ → Op
  reads_back_exact : DispatchId → F64 → Bool → ℕ → Op
  fails_readback : DispatchId → ℕ → Op
  completes : DispatchId → DispatchOutcome → ℕ → Op
  tracks : ℕ → Bool → Op

-- A panic ends the run where it stands.
abbrev or_stays : OutputAuthority → Option OutputAuthority → OutputAuthority
or_stays a none = a
or_stays a (some b) = b

-- The authority after a call, whatever the call returned.
unfoldable pub step : OutputAuthority → Op → OutputAuthority
step a (commands c at) = (command c at a).1
step a (ticks at) = (watchdog at a).1
step a (renews l lifetime at) = (renew_native l lifetime at a).1
step a (reserves at r) = (reserve_transport at r a).1
step a (begins i at) = (begin_transport i at a).1
step a (aborts i) = abort_transport i a
step a (fails i) = fail_transport_before_send i a
step a (loses id) = (transport_uncertain id a).1
step a (acknowledges id at) = (acknowledge_transport id at a).1
step a (reads_back id x at) = (complete_transport_readback id x at a).1
step a (reads_back_exact id x matched at) = (complete_transport_readback_exact id x matched at a).1
step a (fails_readback id at) = (fail_transport_readback id at a).1
step a (completes id outcome at) = (complete_transport id outcome at a).1
step a (tracks id simulated) = or_stays a (track_manual_attempt id simulated a)

unfoldable pub run : OutputAuthority → List Op → OutputAuthority
run a [] = a
run a (o ∷ os) = run (step a o) os
