-- ===== src/Output/Lifecycle.antt =====
-- crates/lab-core/src/output/authority.rs: the lifecycle of a lease (bind, acquire, renew), the
-- proposal slot, the simulated send and the settlement of a dispatch.
use lab_runtime.Base.{
  ℕ, Bool, true, false, ◌&&◌, ◌||◌, not, some, is_some, is_none, F64, Result, ok, err, guard, ok_or,
  and_then, ◌>>=◌, ◌>>◌, return, check, modify, duration_add, leb, ltb, min, u64_eq, ◌==◌,
  if◌then◌else◌,
}
use lab_runtime.Model.{
  EngineeringUnit, unit_eq, Value, ValueSpec, validate, Error, output, invalid_profile,
  invalid_state, wrong_unit, busy, invalid_time,
}
use lab_runtime.Output.Types.{
  OutputState, OutputOwner, SafeProfile, OutputLease, Dispatch, validate_profile,
}
use lab_runtime.Output.Authority.{
  OutputAuthority, Method, clear_pending, bump_epoch, profile, is_armed, check_lease,
}

pub data OutputResult : Type 0 where
  updated queued completed : OutputResult
  lease : OutputLease → OutputResult
  dispatched : Dispatch → OutputResult

pub record OutputProposal : Type 0 where
  pub lease : OutputLease
  pub value : Value
  pub unit : EngineeringUnit
  pub ttl : ℕ

-- States that hold no permission and have none to give back.
unfoldable pub is_idle : OutputState → Bool
is_idle OutputState.unverified = true
is_idle OutputState.disarmed = true
is_idle _ = false

unfoldable pub is_disarmed : OutputState → Bool
is_disarmed OutputState.disarmed = true
is_disarmed _ = false

unfoldable pub install : SafeProfile → OutputAuthority → OutputAuthority
unfolding clear_pending
install p a = clear_pending (record a {
  snapshot = record (a.snapshot) {
    profile = some p;
    state = OutputState.unverified;
    safe_confirmed = false;
  };
})

unfoldable pub bind : SafeProfile → Method OutputResult
unfolding bump_epoch install is_idle
bind p = do
  check (λ a.
      guard (not (not (is_idle a.snapshot.state) || is_some a.snapshot.in_flight))
        (output invalid_state))
  check (λ a. validate_profile p)
  check (λ a. validate a.limits (Value.float p.min))
  check (λ a. validate a.limits (Value.float p.max))
  bump_epoch
  modify (install p)
  return OutputResult.updated

unfoldable pub armed_by : OutputOwner → OutputState
armed_by (OutputOwner.manual n) = OutputState.armed_manual
armed_by (OutputOwner.automatic n) = OutputState.armed_auto

-- The lease that an authority issues at its current epoch.
unfoldable pub issue : OutputOwner → ℕ → OutputAuthority → OutputLease
issue owner expires a = record {
  actuator = a.actuator;
  instance_id = a.instance_id;
  owner = owner;
  epoch = a.snapshot.epoch;
  expires = expires;
}

unfoldable pub grant : OutputOwner → ℕ → Method OutputResult
unfolding armed_by issue
grant owner expires a = (
  ok (OutputResult.lease (issue owner expires a)),
  record a {
    snapshot = record (a.snapshot) {
      lease = some (issue owner expires a);
      safe_confirmed = false;
      state = armed_by owner;
    };
  },
)

-- A lifetime that the installed profile allows.
unfoldable pub check_lifetime : ℕ → OutputAuthority → Result Error (Unit {0})
unfolding profile
check_lifetime lifetime a =
    if lifetime == 0
    then err (output invalid_profile)
    else and_then (profile a) λ p. guard (leb lifetime p.max_lease) (output invalid_profile)

unfoldable pub acquire : OutputOwner → ℕ → ℕ → Method OutputResult
unfolding check_lifetime bump_epoch grant is_disarmed
acquire owner lifetime at = do
  check (λ a.
      guard (is_disarmed a.snapshot.state && a.snapshot.safe_confirmed) (output invalid_state))
  check (check_lifetime lifetime)
  expires ← check (λ a. ok_or (duration_add at lifetime) (output invalid_time))
  bump_epoch
  grant owner expires

unfoldable pub replace_lease : OutputLease → ℕ → Method OutputLease
replace_lease l expires a = (
  ok (record l { expires = expires }),
  record a { snapshot = record (a.snapshot) { lease = some (record l { expires = expires }) } },
)

unfoldable pub renew : OutputLease → ℕ → ℕ → Method OutputLease
unfolding check_lifetime replace_lease is_armed
renew l lifetime at = do
  check (check_lease l at)
  check (λ a.
      guard
        (not (
          not (is_armed a.snapshot.state) || a.snapshot.fault_latched || a.safe_obligation_pending))
        (output invalid_state))
  check (λ a.
      guard
        (not (is_some a.pending || is_some a.transport_reserved || is_some a.snapshot.in_flight))
        (output busy))
  check (check_lifetime lifetime)
  expires ← check (λ a. ok_or (duration_add at lifetime) (output invalid_time))
  check (λ a. guard (ltb l.expires expires) (output invalid_time))
  replace_lease l expires

unfoldable pub is_automatic : OutputOwner → Bool
is_automatic (OutputOwner.manual n) = false
is_automatic (OutputOwner.automatic n) = true

unfoldable pub renew_native : OutputLease → ℕ → ℕ → Method OutputLease
unfolding is_automatic
renew_native l lifetime at = do
  check (λ a. guard (is_automatic l.owner) (output invalid_state))
  renew l lifetime at

unfoldable pub enqueue : OutputLease → F64 → ℕ → OutputAuthority → OutputAuthority
enqueue l x expires a = record a {
  pending = some (record { lease = l; value = x; expires = expires });
  snapshot = record (a.snapshot) { pending = true; requested = some x };
}

-- The value of a proposal; a profile's schema has accepted floats only.
unfoldable pub scalar : Value → F64
scalar (Value.float x) = x
scalar _ = F64.nan

unfoldable pub propose : OutputProposal → ℕ → Method OutputResult
unfolding profile enqueue scalar
propose q at = do
  check (check_lease q.lease at)
  check (λ a. guard (unit_eq q.unit a.unit) (output wrong_unit))
  p ← check profile
  check (λ a. validate (ValueSpec.float p.min p.max) q.value)
  check (λ a. guard (not (q.ttl == 0 || ltb p.max_proposal_ttl q.ttl)) (output invalid_profile))
  deadline ← check (λ a. ok_or (duration_add at q.ttl) (output invalid_time))
  check (λ a. guard (is_none a.pending) (output busy))
  modify (enqueue q.lease (scalar q.value) (min deadline q.lease.expires))
  return OutputResult.queued
