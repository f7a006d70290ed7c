-- ===== src/Output/Authority.antt =====
-- crates/lab-core/src/output/authority.rs: the state of an OutputAuthority and the methods behind
-- its commands. A method on `&mut self` keeps what it has changed when it fails.
use mathlib.Core.Option
use lab_runtime.Base.{
  ℕ, Bool, true, false, ◌&&◌, ◌||◌, not, Option, none, some, is_none, F64, Result, ok, err, guard,
  ok_or, Act, ◌>>◌, modify, checked_add, leb, u64_eq, ◌==◌, if◌then◌else◌,
}
use lab_runtime.Model.{
  EngineeringUnit, ValueSpec, Error, output, invalid_profile, stale_lease, expired,
  counter_exhausted,
}
use lab_runtime.Output.Types.{
  ActuatorId, OutputState, SafeProfile, OutputLease, DispatchOutcome, ManualOutputAttempt,
  OutputSnapshot, OutputIntent, is_lease, actuator_eq,
}

pub record Pending : Type 0 where
  pub lease : OutputLease
  pub value : F64
  pub expires : ℕ

pub record OutputAuthority : Type 0 where
  pub actuator : ActuatorId
  pub instance_id : ℕ
  pub limits : ValueSpec
  pub unit : EngineeringUnit
  pub snapshot : OutputSnapshot
  pub pending : Option Pending
  pub transport_reserved : Option OutputIntent
  pub safe_obligation_pending : Bool
  pub ambiguous_safe_resend_blocked : Bool
  pub next_dispatch : ℕ

abbrev pub Method : Type 0 → Type 0
Method A = Act OutputAuthority Error A

-- The snapshot of an authority that has done nothing.
unfoldable pub fresh_snapshot : ℕ → OutputSnapshot
fresh_snapshot n = record {
  manual_supported = false;
  instance_id = n;
  profile = none;
  manual_attempt = none;
  state = OutputState.unverified;
  lease = none;
  epoch = 0;
  fault_latched = false;
  safe_confirmed = false;
  pending = false;
  in_flight = none;
  requested = none;
  sent = none;
  acknowledged = none;
  readback = none;
  reported_readback = none;
  readback_failure = none;
  outcome = none;
}

-- `new` over the process counter NEXT_INSTANCE, which it returns advanced.
unfoldable pub new : ActuatorId → ValueSpec → EngineeringUnit → Act ℕ Error OutputAuthority
unfolding fresh_snapshot
new actuator limits unit counter = elim (checked_add counter 1) [
  | none ↦ (err (output counter_exhausted), counter)
  | some following ↦ (
    ok (record {
      actuator = actuator;
      instance_id = counter;
      limits = limits;
      unit = unit;
      snapshot = fresh_snapshot counter;
      pending = none;
      transport_reserved = none;
      safe_obligation_pending = false;
      ambiguous_safe_resend_blocked = false;
      next_dispatch = 1;
    }),
    following,
  )
]

unfoldable pub clear_pending : OutputAuthority → OutputAuthority
clear_pending a = record a { pending = none; snapshot = record (a.snapshot) { pending = false } }

unfoldable pub bump_epoch : Method (Unit {0})
bump_epoch a = elim (checked_add a.snapshot.epoch 1) [
  | none ↦ (
    err (output counter_exhausted),
    record a {
      pending = none;
      snapshot = record (a.snapshot) {
        lease = none;
        fault_latched = true;
        safe_confirmed = false;
        state = OutputState.fault_latched;
        pending = false;
      };
    },
  )
  | some e ↦ (ok tt, record a { snapshot = record (a.snapshot) { epoch = e } })
]

unfoldable pub profile : OutputAuthority → Result Error SafeProfile
profile a = ok_or a.snapshot.profile (output invalid_profile)

unfoldable pub is_armed : OutputState → Bool
is_armed OutputState.armed_manual = true
is_armed OutputState.armed_auto = true
is_armed _ = false

unfoldable pub check_lease : OutputLease → ℕ → OutputAuthority → Result Error (Unit {0})
unfolding is_lease actuator_eq is_armed
check_lease l at a =
    if leb l.expires at
    then err (output expired)
    else guard
        (is_lease a.snapshot.lease l
          && actuator_eq l.actuator a.actuator
          && l.instance_id == a.instance_id
          && l.epoch == a.snapshot.epoch
          && is_armed a.snapshot.state)
        (output stale_lease)

-- The receipt of a manual write that was given up before its send.
unfoldable pub fail_attempt : ManualOutputAttempt → ManualOutputAttempt
fail_attempt m =
    if not m.terminal && is_none m.dispatch
    then record m { terminal = true; outcome = some DispatchOutcome.failed }
    else m

unfoldable pub fail_manual_before_send : OutputAuthority → OutputAuthority
unfolding fail_attempt
fail_manual_before_send a = record a {
  snapshot = record (a.snapshot) {
    manual_attempt = Option.map fail_attempt a.snapshot.manual_attempt;
  };
}

-- The rest of `request_safe` once the epoch has advanced.
unfoldable pub revoke : Bool → OutputAuthority → OutputAuthority
revoke fault a = record a {
  safe_obligation_pending = true;
  transport_reserved = none;
  pending = none;
  snapshot = record (a.snapshot) {
    lease = none;
    fault_latched = a.snapshot.fault_latched || fault;
    safe_confirmed = false;
    state =
        if a.ambiguous_safe_resend_blocked
        then OutputState.fault_latched
        else OutputState.safe_pending;
    pending = false;
  };
}

unfoldable pub request_safe : Bool → Method (Unit {0})
unfolding fail_manual_before_send bump_epoch revoke
request_safe fault = do modify fail_manual_before_send; bump_epoch; modify (revoke fault)
