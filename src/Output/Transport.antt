-- ===== src/Output/Transport.antt =====
-- crates/lab-core/src/output/authority.rs: what the transport executor calls. It reserves one
-- intent, has it validated again before the first byte, and reports how the write ended.
use lab_runtime.Base.{
  ℕ, Bool, true, false, ◌&&◌, ◌||◌, not, Option, none, some, is_some, F64, f64_eq, Result, ok, err,
  guard, ok_or, and_then, ◌>>=◌, ◌>>◌, check, checked_add, leb, min, u64_eq, ◌==◌, if◌then◌else◌,
}
use lab_runtime.Model.{
  unit_eq, Value, ValueSpec, validate, Error, output, invalid_state, stale_lease, expired, busy,
  nothing_pending, invalid_time, counter_exhausted,
}
use lab_runtime.Output.Types.{
  DispatchId, DispatchOutcome, OutputIntent, actuator_eq, opt_lease_eq, opt_nat_eq, bool_eq,
}
use lab_runtime.Output.Authority.{
  Pending, OutputAuthority, Method, clear_pending, profile, check_lease, fail_manual_before_send,
}
use lab_runtime.Output.Sending.{next, put_in_flight}
use lab_runtime.Output.Settlement.{flying, fail_safe}

-- The derived comparison of intents.
unfoldable pub intent_eq : OutputIntent → OutputIntent → Bool
unfolding actuator_eq opt_nat_eq opt_lease_eq bool_eq unit_eq
intent_eq i j =
    actuator_eq i.actuator j.actuator
    && opt_nat_eq i.attempt_id j.attempt_id
    && i.instance_id == j.instance_id
    && opt_lease_eq i.lease j.lease
    && i.epoch == j.epoch
    && f64_eq i.value j.value
    && unit_eq i.unit j.unit
    && i.expires == j.expires
    && bool_eq i.safe j.safe
    && i.binding_generation == j.binding_generation
    && i.mapping_revision == j.mapping_revision

-- `self.transport_reserved == Some(intent)`.
unfoldable pub is_reserved : Option OutputIntent → OutputIntent → Bool
is_reserved none i = false
is_reserved (some j) i = intent_eq j i

-- What the caller supplies with a reservation.
pub record Reservation : Type 0 where
  pub queue_deadline : ℕ
  pub attempt_id : Option ℕ
  pub binding_generation : ℕ
  pub mapping_revision : ℕ

unfoldable pub safe_intent : Reservation → F64 → OutputAuthority → OutputIntent
safe_intent r value a = record {
  actuator = a.actuator;
  attempt_id = r.attempt_id;
  instance_id = a.instance_id;
  lease = none;
  epoch = a.snapshot.epoch;
  value = value;
  unit = a.unit;
  expires = r.queue_deadline;
  safe = true;
  binding_generation = r.binding_generation;
  mapping_revision = r.mapping_revision;
}

unfoldable pub normal_intent : Reservation → Pending → OutputAuthority → OutputIntent
normal_intent r p a = record {
  actuator = a.actuator;
  attempt_id = r.attempt_id;
  instance_id = a.instance_id;
  lease = some p.lease;
  epoch = a.snapshot.epoch;
  value = p.value;
  unit = a.unit;
  expires = min p.expires r.queue_deadline;
  safe = false;
  binding_generation = r.binding_generation;
  mapping_revision = r.mapping_revision;
}

unfoldable pub reserve : OutputIntent → Method OutputIntent
reserve i a = (ok i, record a { transport_reserved = some i })

unfoldable pub reserve_safe : Reservation → Method OutputIntent
unfolding profile safe_intent reserve
reserve_safe r = do
  check (λ a. guard (not a.ambiguous_safe_resend_blocked) (output invalid_state))
  p ← check profile
  λ a. reserve (safe_intent r p.safe_value a) a

unfoldable pub reserve_normal : ℕ → Reservation → Option Pending → Method OutputIntent
unfolding normal_intent reserve clear_pending
reserve_normal at r none a = (err (output nothing_pending), a)
reserve_normal at r (some p) a = elim (check_lease p.lease at a) [
  | err e ↦ (err e, a)
  | ok _ ↦
      if leb p.expires at
      then (err (output expired), clear_pending a)
      else reserve (normal_intent r p a) a
]

unfoldable pub reserve_transport : ℕ → Reservation → Method OutputIntent
unfolding reserve_safe reserve_normal
reserve_transport at r a =
    if is_some a.snapshot.in_flight || is_some a.transport_reserved
    then (err (output busy), a)
    else if leb r.queue_deadline at || r.binding_generation == 0 || r.mapping_revision == 0
    then (err (output invalid_time), a)
    else if a.safe_obligation_pending
    then reserve_safe r a
    else reserve_normal at r a.pending a

-- The permission part of the last check: the obligation, or the lease of the proposal.
unfoldable pub check_permission : OutputIntent → ℕ → OutputAuthority → Result Error (Unit {0})
check_permission i at a =
    if i.safe
    then guard (not (not a.safe_obligation_pending || is_some i.lease)) (output stale_lease)
    else and_then (ok_or i.lease (output stale_lease)) λ l. check_lease l at a

unfoldable pub validate_transport : OutputIntent → ℕ → OutputAuthority → Result Error (Unit {0})
unfolding profile
validate_transport i at a =
    and_then
      (guard
        (not (
          not (is_reserved a.transport_reserved i)
          || not (actuator_eq i.actuator a.actuator)
          || not (i.instance_id == a.instance_id)
          || not (i.epoch == a.snapshot.epoch)
          || not (unit_eq i.unit a.unit)
          || leb i.expires at
          || is_some a.snapshot.in_flight))
        (output stale_lease))
      λ _. and_then (validate a.limits (Value.float i.value)) λ _. and_then (profile a) λ p.
        and_then (validate (ValueSpec.float p.min p.max) (Value.float i.value))
          λ _. check_permission i at a

unfoldable pub launch : OutputIntent → ℕ → Method DispatchId
unfolding next put_in_flight clear_pending
launch i at a = elim (checked_add a.next_dispatch 1) [
  | none ↦ (err (output counter_exhausted), a)
  | some following ↦ (
    ok ((next i.value i.safe i.epoch a).id),
    put_in_flight (next i.value i.safe i.epoch a) at following (
        if i.safe
        then record a { transport_reserved = none; safe_obligation_pending = false }
        else clear_pending (record a { transport_reserved = none })),
  )
]

unfoldable pub begin_transport : OutputIntent → ℕ → Method DispatchId
begin_transport i at = do check (validate_transport i at); launch i at

unfoldable pub abort_transport : OutputIntent → OutputAuthority → OutputAuthority
unfolding clear_pending fail_manual_before_send
abort_transport i a =
    if is_reserved a.transport_reserved i
    then if i.safe
      then record a { transport_reserved = none }
      else fail_manual_before_send (clear_pending (record a { transport_reserved = none }))
    else a

unfoldable pub set_outcome : DispatchOutcome → OutputAuthority → OutputAuthority
set_outcome outcome a = record a { snapshot = record (a.snapshot) { outcome = some outcome } }

unfoldable pub fail_transport_before_send : OutputIntent → OutputAuthority → OutputAuthority
unfolding set_outcome
fail_transport_before_send i a =
    if is_reserved a.transport_reserved i
    then set_outcome DispatchOutcome.failed (abort_transport i a)
    else a

unfoldable pub transport_uncertain : DispatchId → Method (Unit {0})
transport_uncertain id = do d ← check (flying id); fail_safe d
