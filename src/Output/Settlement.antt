-- ===== src/Output/Settlement.antt =====
-- crates/lab-core/src/output/authority.rs: the settlement of a dispatch, its evidence and what it
-- does to the permission.
use mathlib.Core.Option
use lab_runtime.Base.{
  ℕ, Bool, true, false, ◌&&◌, ◌||◌, not, none, some, Result, ok, err, ok_or, and_then, ◌>>=◌, ◌>>◌,
  return, check, modify, u64_eq, ◌==◌, if◌then◌else◌,
}
use lab_runtime.Model.{Error, output, unknown_dispatch}
use lab_runtime.Output.Types.{
  OutputState, EvidenceLevel, SafeProfile, DispatchId, Dispatch, DispatchOutcome,
  ManualOutputAttempt, OutputSnapshot, dispatch_id_eq,
}
use lab_runtime.Output.Authority.{OutputAuthority, Method, profile, request_safe}
use lab_runtime.Output.Lifecycle.{OutputResult}

unfoldable pub acknowledges : DispatchOutcome → Bool
acknowledges DispatchOutcome.acknowledged = true
acknowledges DispatchOutcome.readback_verified = true
acknowledges _ = false

unfoldable pub verifies : DispatchOutcome → Bool
verifies DispatchOutcome.readback_verified = true
verifies _ = false

unfoldable pub capture_attempt :
    DispatchId → Bool → OutputSnapshot → ManualOutputAttempt → ManualOutputAttempt
unfolding dispatch_id_eq
capture_attempt id terminal s m = elim m.dispatch [
  | none ↦ m
  | some sent_id ↦
      if not m.terminal && dispatch_id_eq sent_id id
      then record m {
        terminal = terminal;
        outcome = if terminal then s.outcome else none;
        acknowledged = s.acknowledged;
        readback = s.readback;
        reported_readback = s.reported_readback;
        readback_failure = s.readback_failure;
      }
      else m
]

unfoldable pub capture_manual_delivery : DispatchId → Bool → OutputAuthority → OutputAuthority
unfolding capture_attempt
capture_manual_delivery id terminal a = record a {
  snapshot = record (a.snapshot) {
    manual_attempt = Option.map (capture_attempt id terminal a.snapshot) a.snapshot.manual_attempt;
  };
}

-- The evidence of a settled dispatch.
unfoldable pub record_outcome : Dispatch → DispatchOutcome → ℕ → OutputAuthority → OutputAuthority
unfolding acknowledges verifies capture_manual_delivery
record_outcome d outcome at a = capture_manual_delivery d.id true (record a {
  snapshot = record (a.snapshot) {
    in_flight = none;
    outcome = some outcome;
    acknowledged =
        if acknowledges outcome
        then some (record { value = d.value; at = at })
        else a.snapshot.acknowledged;
    readback =
        if verifies outcome
        then some (record { value = d.value; at = at })
        else a.snapshot.readback;
  };
})

-- A started safe write with an unknown result may not be repeated.
unfoldable pub block_resend : OutputAuthority → OutputAuthority
block_resend a = record a {
  ambiguous_safe_resend_blocked = true;
  snapshot = record (a.snapshot) { state = OutputState.fault_latched };
}

unfoldable pub fail_safe : Dispatch → Method (Unit {0})
unfolding block_resend
fail_safe d = do request_safe true; modify (λ a. if d.safe then block_resend a else a)

unfoldable pub accepts_acknowledgement : SafeProfile → Bool
accepts_acknowledgement p = elim p.required_evidence [
  | EvidenceLevel.acknowledgement ↦ true
  | EvidenceLevel.readback ↦ false
]

-- Whether the outcome is the evidence that the profile asks for.
unfoldable pub is_sufficient : DispatchOutcome → OutputAuthority → Result Error Bool
unfolding verifies profile accepts_acknowledgement
is_sufficient outcome a =
    if verifies outcome then ok true else and_then (profile a) λ p. ok (accepts_acknowledgement p)

unfoldable pub conclude_safe : Bool → OutputAuthority → OutputAuthority
conclude_safe sufficient a = record a {
  snapshot = record (a.snapshot) {
    safe_confirmed = sufficient;
    fault_latched = a.snapshot.fault_latched || not sufficient;
    state =
        if a.snapshot.fault_latched || not sufficient
        then OutputState.fault_latched
        else OutputState.disarmed;
  };
}

unfoldable pub confirm_safe : DispatchOutcome → Method (Unit {0})
unfolding is_sufficient conclude_safe
confirm_safe outcome = do
  sufficient ← check (is_sufficient outcome)
  modify (conclude_safe sufficient)

-- What a settled dispatch does to the permission.
unfoldable pub settle : Dispatch → DispatchOutcome → Method (Unit {0})
unfolding acknowledges
settle d outcome a =
    if not (acknowledges outcome)
    then fail_safe d a
    else if d.safe && d.epoch == a.snapshot.epoch
    then confirm_safe outcome a
    else (ok tt, a)

unfoldable pub flying : DispatchId → OutputAuthority → Result Error Dispatch
flying id a =
    and_then (ok_or a.snapshot.in_flight (output unknown_dispatch))
      λ d. if dispatch_id_eq d.id id then ok d else err (output unknown_dispatch)

unfoldable pub complete : DispatchId → DispatchOutcome → ℕ → Method OutputResult
complete id outcome at = do
  d ← check (flying id)
  modify (record_outcome d outcome at)
  settle d outcome
  return OutputResult.completed
