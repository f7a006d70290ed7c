-- ===== src/Output/Queries.antt =====
-- crates/lab-core/src/output/authority.rs: the queries by which a controller is admitted.
use lab_runtime.Base.{
  ◌≤◌, ◌<◌, refl, arith, duration_max, u64_max, ℕ, ◌+◌, ◌≡◌, Bool, true, false, ◌&&◌, not, none,
  some, is_none, F64, f64_le, Result, ok, and_then, checked_add, duration_add, leb, ltb, u64_eq,
  ◌==◌,
}
use lab_runtime.Model.{ValueSpec, Error}
use lab_runtime.Output.Types.{OutputOwner, OutputLease}
use lab_runtime.Output.Authority.{OutputAuthority, profile}
use lab_runtime.Output.Lifecycle.{OutputResult, is_disarmed, acquire}
use lab_runtime.Output.Settlement.{accepts_acknowledgement}

unfoldable pub can_prepare : OutputAuthority → Bool
unfolding is_disarmed
can_prepare a =
    is_disarmed a.snapshot.state
    && a.snapshot.safe_confirmed
    && is_none a.snapshot.lease
    && is_none a.pending
    && is_none a.transport_reserved
    && is_none a.snapshot.in_flight
    && not a.safe_obligation_pending

unfoldable pub requires_readback : OutputAuthority → Result Error Bool
unfolding profile accepts_acknowledgement
requires_readback a = and_then (profile a) λ p. ok (not (accepts_acknowledgement p))

unfoldable pub valid_native_duration : ℕ → ℕ → OutputAuthority → Bool
valid_native_duration gap lifetime a = elim a.snapshot.profile [
  | none ↦ false
  | some p ↦ not (gap == 0) && ltb gap lifetime && leb lifetime p.max_lease
]

unfoldable pub spec_includes : F64 → F64 → ValueSpec → Bool
spec_includes lo hi (ValueSpec.float low high) = f64_le low lo && f64_le hi high
spec_includes lo hi _ = false

unfoldable pub accepts_pid_limits : F64 → F64 → OutputAuthority → Bool
unfolding can_prepare spec_includes
accepts_pid_limits lo hi a = elim a.snapshot.profile [
  | none ↦ false
  | some p ↦ can_prepare a && spec_includes lo hi a.limits && (f64_le p.min lo && f64_le hi p.max)
]

-- An output that a controller may prepare for, at a cadence that is admitted, can be acquired by
-- that controller: the acquisition succeeds unless its expiry or the epoch would overflow.
pub prepared_acquires :
    (owner : OutputOwner) (gap lifetime at : ℕ) (a : OutputAuthority)
    → can_prepare a ≡ true
    → valid_native_duration gap lifetime a ≡ true
    → at + lifetime ≤ duration_max
    → a.snapshot.epoch < u64_max
    → (l : OutputLease) × ((acquire owner lifetime at a).0 ≡ ok (OutputResult.lease l))
      × (l.expires ≡ at + lifetime)
      × (at + gap < l.expires)
unfolding can_prepare valid_native_duration acquire checked_add duration_add
prepared_acquires owner gap lifetime at a c d t e = (
  record {
    actuator = a.actuator;
    instance_id = a.instance_id;
    owner = owner;
    epoch = a.snapshot.epoch + 1;
    expires = at + lifetime;
  },
  ground arith,
  refl,
  ground arith,
)
