-- ===== src/Output/Permission.antt =====
-- What the checks of a lease and of a reserved intent establish.
use lab_runtime.Base.{
  ℕ, ◌<◌, ◌≡◌, ◌↔◌, inl, inr, refl, ap, true, false, f64_eq-eq, Option, some, none, ok, arith,
  Option-cases, OnSome, is_some,
}
use lab_runtime.Model.{Value, ValueSpec, validate, unit_eq}
use lab_runtime.Output.Types.{
  OutputLease, OutputIntent, SafeProfile, is_lease, lease_eq_iff, actuator_eq_iff, opt_lease_eq,
  opt_nat_eq, bool_eq,
}
use lab_runtime.Output.Authority.{OutputAuthority, is_armed, check_lease}
use lab_runtime.Output.Transport.{is_reserved, intent_eq, validate_transport, check_permission}

is_lease_iff : (o : Option OutputLease) (l : OutputLease) → (is_lease o l ≡ true) ↔ (o ≡ some l)
unfolding is_lease
is_lease_iff none l = (λ h. ground arith, λ h. ground arith)
is_lease_iff (some m) l =
    (λ h. ground (arith, (lease_eq_iff m l).0), λ h. ground (arith, (lease_eq_iff m l).1))

-- A lease that passes is the current one and has time left.
pub record Permits (a : OutputAuthority) (l : OutputLease) (at : ℕ) : Type 0 where
  pub current : a.snapshot.lease ≡ some l
  pub armed : is_armed a.snapshot.state ≡ true
  pub epoch : l.epoch ≡ a.snapshot.epoch
  pub live : at < l.expires

pub check_lease-Permits :
    (l : OutputLease) (at : ℕ) (a : OutputAuthority) → check_lease l at a ≡ ok tt → Permits a l at
unfolding check_lease
check_lease-Permits l at a h = ground (arith, (is_lease_iff a.snapshot.lease l).0)

-- All fields of two intents agree; units by their identity.
pub record Agrees (j i : OutputIntent) : Type 0 where
  pub actuator : j.actuator ≡ i.actuator
  pub attempt : j.attempt_id ≡ i.attempt_id
  pub instance : j.instance_id ≡ i.instance_id
  pub lease : j.lease ≡ i.lease
  pub epoch : j.epoch ≡ i.epoch
  pub value : j.value ≡ i.value
  pub unit : unit_eq j.unit i.unit ≡ true
  pub expires : j.expires ≡ i.expires
  pub safe : j.safe ≡ i.safe
  pub binding : j.binding_generation ≡ i.binding_generation
  pub mapping : j.mapping_revision ≡ i.mapping_revision

opt_lease_same : (a b : Option OutputLease) → opt_lease_eq a b ≡ true → a ≡ b
unfolding opt_lease_eq
opt_lease_same none none h = refl
opt_lease_same none (some b) h = ground (arith, h)
opt_lease_same (some a) none h = ground (arith, h)
opt_lease_same (some a) (some b) h = ap some ((lease_eq_iff a b).0 h)

intent_eq-Agrees : (j i : OutputIntent) → intent_eq j i ≡ true → Agrees j i
unfolding intent_eq opt_nat_eq bool_eq
intent_eq-Agrees j i h = record {
  actuator = (actuator_eq_iff j.actuator i.actuator).0 (ground (arith, h));
  attempt = ground (arith, h);
  instance = ground (arith, h);
  lease = opt_lease_same j.lease i.lease (ground (arith, h));
  epoch = ground (arith, h);
  value = f64_eq-eq j.value i.value (ground (arith, h));
  unit = ground (arith, h);
  expires = ground (arith, h);
  safe = ground (arith, h);
  binding = ground (arith, h);
  mapping = ground (arith, h);
}

-- The intent that is reserved agrees with this one.
abbrev pub Reserved : OutputAuthority → OutputIntent → Type 0
Reserved a i = (j : OutputIntent) × (a.transport_reserved ≡ some j) × Agrees j i

pub is_reserved-Reserved :
    (i : OutputIntent) (a : OutputAuthority)
    → is_reserved a.transport_reserved i ≡ true
    → Reserved a i
unfolding is_reserved
is_reserved-Reserved i a h = elim (Option-cases a.transport_reserved) [
  | inl e ↦ absurd (let h' = rw e at h in ground (arith, h'))
  | inr (j, e) ↦ (j, e, intent_eq-Agrees j i (rw e at h))
]

-- The facts that the last check before the first byte establishes.
pub record Cleared (a : OutputAuthority) (i : OutputIntent) (at : ℕ) : Type 0 where
  pub reserved : is_reserved a.transport_reserved i ≡ true
  pub held : is_some a.transport_reserved ≡ true
  pub unsent : a.snapshot.in_flight ≡ none
  pub epoch : i.epoch ≡ a.snapshot.epoch
  pub actuator : i.actuator ≡ a.actuator
  pub instance : i.instance_id ≡ a.instance_id
  pub unit : unit_eq i.unit a.unit ≡ true
  pub live : at < i.expires
  pub within_limits : validate a.limits (Value.float i.value) ≡ ok tt
  pub profiled : is_some a.snapshot.profile ≡ true
  pub within_profile :
      OnSome
        (λ (p : SafeProfile). validate (ValueSpec.float p.min p.max) (Value.float i.value) ≡ ok tt)
        a.snapshot.profile
  pub permitted : check_permission i at a ≡ ok tt

pub validate_transport-Cleared :
    (i : OutputIntent) (at : ℕ) (a : OutputAuthority)
    → validate_transport i at a ≡ ok tt
    → Cleared a i at
unfolding validate_transport is_reserved
validate_transport-Cleared i at a h = ground (arith, (actuator_eq_iff i.actuator a.actuator).0)

pub check_permission-safe :
    (i : OutputIntent) (at : ℕ) (a : OutputAuthority)
    → check_permission i at a ≡ ok tt
    → i.safe ≡ true
    → (a.safe_obligation_pending ≡ true) × (i.lease ≡ none)
unfolding check_permission
check_permission-safe i at a h s = ground arith

pub check_permission-normal :
    (i : OutputIntent) (at : ℕ) (a : OutputAuthority)
    → check_permission i at a ≡ ok tt
    → i.safe ≡ false
    → (l : OutputLease) × (i.lease ≡ some l) × Permits a l at
unfolding check_permission
check_permission-normal i at a h s = elim (Option-cases i.lease) [
  | inl e ↦ absurd (ground arith)
  | inr (l, e) ↦ (l, e, check_lease-Permits l at a (ground arith))
]
