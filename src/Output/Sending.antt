-- ===== src/Output/Sending.antt =====
-- crates/lab-core/src/output/authority.rs: the send boundary of the simulated executor.
use mathlib.Core.Option
use lab_runtime.Base.{
  ℕ, Bool, true, false, ◌&&◌, ◌||◌, not, Option, none, some, is_some, is_none, F64, ok, err, guard,
  ◌>>=◌, ◌>>◌, check, checked_add, leb, u64_eq, if◌then◌else◌,
}
use lab_runtime.Model.{output, invalid_state, expired, busy, nothing_pending, counter_exhausted}
use lab_runtime.Output.Types.{Dispatch, OutputObservation, ManualOutputAttempt, OutputSnapshot}
use lab_runtime.Output.Authority.{
  Pending, OutputAuthority, Method, clear_pending, profile, check_lease,
}
use lab_runtime.Output.Lifecycle.{OutputResult}

unfoldable pub evidence : OutputObservation → OutputSnapshot → OutputSnapshot
evidence o s = record s {
  sent = some o;
  acknowledged = none;
  readback = none;
  reported_readback = none;
  readback_failure = none;
  outcome = none;
}

-- A manual attempt takes the identity of the first ordinary send after it.
unfoldable pub attempt_sent :
    Dispatch → Option OutputObservation → ManualOutputAttempt → ManualOutputAttempt
attempt_sent d sent m =
    if not m.terminal && is_none m.dispatch
    then record m { dispatch = some d.id; sent = sent }
    else m

unfoldable pub manual_send_started : Dispatch → OutputAuthority → OutputAuthority
unfolding attempt_sent
manual_send_started d a = if d.safe then a else record a {
  snapshot = record (a.snapshot) {
    manual_attempt = Option.map (attempt_sent d a.snapshot.sent) a.snapshot.manual_attempt;
  };
}

-- The dispatch that the next send gets.
unfoldable pub next : F64 → Bool → ℕ → OutputAuthority → Dispatch
next value safe epoch a = record {
  id = record { instance_id = a.instance_id; sequence = a.next_dispatch };
  value = value;
  safe = safe;
  epoch = epoch;
}

-- Enter the in-flight state. `following` is the next dispatch number.
unfoldable pub put_in_flight : Dispatch → ℕ → ℕ → OutputAuthority → OutputAuthority
unfolding evidence manual_send_started
put_in_flight d at following a = manual_send_started d (record a {
  next_dispatch = following;
  snapshot = record (evidence (record { value = d.value; at = at }) a.snapshot) {
    safe_confirmed = false;
    in_flight = some d;
  };
})

unfoldable pub send : F64 → Bool → ℕ → Method OutputResult
unfolding next put_in_flight clear_pending
send value safe at a = elim (checked_add a.next_dispatch 1) [
  | none ↦ (err (output counter_exhausted), a)
  | some following ↦ (
    ok (OutputResult.dispatched (next value safe a.snapshot.epoch a)),
    put_in_flight (next value safe a.snapshot.epoch a) at following
        (record (clear_pending a) { safe_obligation_pending = false }),
  )
]

unfoldable pub begin_safe : ℕ → Method OutputResult
unfolding profile send
begin_safe at = do
  check (λ a. guard (not a.ambiguous_safe_resend_blocked) (output invalid_state))
  p ← check profile
  send p.safe_value true at

-- A queued proposal that is no longer authorised is dropped.
unfoldable pub begin_normal : ℕ → Option Pending → Method OutputResult
unfolding check_lease send clear_pending
begin_normal at none a = (err (output nothing_pending), a)
begin_normal at (some c) a = elim (check_lease c.lease at a) [
  | err e ↦ (err e, clear_pending a)
  | ok _ ↦
      if leb c.expires at then (err (output expired), clear_pending a) else send c.value false at a
]

unfoldable pub begin : ℕ → Method OutputResult
unfolding begin_safe begin_normal
begin at a =
    if is_some a.snapshot.in_flight || is_some a.transport_reserved
    then (err (output busy), a)
    else if a.safe_obligation_pending
    then begin_safe at a
    else begin_normal at a.pending a
