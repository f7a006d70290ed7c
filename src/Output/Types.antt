-- ===== src/Output/Types.antt =====
-- crates/lab-core/src/output.rs: leases, proposals, dispatches, evidence and the inspection view.
-- Times and durations are nanoseconds.
use lab_runtime.Base.{
  ℕ, ◌≡◌, ◌↔◌, Bool, true, false, ◌&&◌, ◌||◌, not, Option, none, some, F64, is_finite, f64_le,
  in_range, Result, guard, u64_eq, ◌==◌, arith,
}
use lab_runtime.Model.{EngineeringUnit, Error, output, invalid_profile}

pub record ActuatorId : Type 0 where
  pub instrument : ℕ
  pub parameter : ℕ

pub data OutputState : Type 0 where
  unverified safe_pending disarmed armed_manual armed_auto fault_latched : OutputState

pub data OutputOwner : Type 0 where
  manual automatic : ℕ → OutputOwner

pub data EvidenceLevel : Type 0 where
  acknowledgement readback : EvidenceLevel

pub record SafeProfile : Type 0 where
  pub min : F64
  pub max : F64
  pub safe_value : F64
  pub max_lease : ℕ
  pub max_proposal_ttl : ℕ
  pub required_evidence : EvidenceLevel

unfoldable pub validate_profile : SafeProfile → Result Error (Unit {0})
validate_profile p =
    guard
      (not (
        not (is_finite p.min)
        || not (is_finite p.max)
        || not (is_finite p.safe_value)
        || f64_le p.max p.min
        || not (in_range p.min p.max p.safe_value)
        || p.max_lease == 0
        || p.max_proposal_ttl == 0))
      (output invalid_profile)

pub record OutputLease : Type 0 where
  pub actuator : ActuatorId
  pub instance_id : ℕ
  pub owner : OutputOwner
  pub epoch : ℕ
  pub expires : ℕ

pub record DispatchId : Type 0 where
  pub instance_id : ℕ
  pub sequence : ℕ

pub record Dispatch : Type 0 where
  pub id : DispatchId
  pub value : F64
  pub safe : Bool
  pub epoch : ℕ

pub data DispatchOutcome : Type 0 where
  acknowledged readback_verified failed ambiguous : DispatchOutcome

pub data OutputReadbackFailure : Type 0 where
  mismatch unavailable : OutputReadbackFailure

pub record OutputObservation : Type 0 where
  pub value : F64
  pub at : ℕ

pub record ManualOutputAttempt : Type 0 where
  pub virtual_simulation : Bool
  pub id : ℕ
  pub requested : F64
  pub dispatch : Option DispatchId
  pub terminal : Bool
  pub outcome : Option DispatchOutcome
  pub sent : Option OutputObservation
  pub acknowledged : Option OutputObservation
  pub readback : Option OutputObservation
  pub reported_readback : Option OutputObservation
  pub readback_failure : Option OutputReadbackFailure

pub record OutputSnapshot : Type 0 where
  pub manual_supported : Bool
  pub instance_id : ℕ
  pub profile : Option SafeProfile
  pub manual_attempt : Option ManualOutputAttempt
  pub state : OutputState
  pub lease : Option OutputLease
  pub epoch : ℕ
  pub fault_latched : Bool
  pub safe_confirmed : Bool
  pub pending : Bool
  pub in_flight : Option Dispatch
  pub requested : Option F64
  pub sent : Option OutputObservation
  pub acknowledged : Option OutputObservation
  pub readback : Option OutputObservation
  pub reported_readback : Option OutputObservation
  pub readback_failure : Option OutputReadbackFailure
  pub outcome : Option DispatchOutcome

-- The immutable intent that the transport queue holds.
pub record OutputIntent : Type 0 where
  pub actuator : ActuatorId
  pub attempt_id : Option ℕ
  pub instance_id : ℕ
  pub lease : Option OutputLease
  pub epoch : ℕ
  pub value : F64
  pub unit : EngineeringUnit
  pub expires : ℕ
  pub safe : Bool
  pub binding_generation : ℕ
  pub mapping_revision : ℕ

-- The derived comparisons.
unfoldable pub owner_eq : OutputOwner → OutputOwner → Bool
owner_eq (OutputOwner.manual m) (OutputOwner.manual n) = m == n
owner_eq (OutputOwner.automatic m) (OutputOwner.automatic n) = m == n
owner_eq _ _ = false

unfoldable pub actuator_eq : ActuatorId → ActuatorId → Bool
actuator_eq a b = a.instrument == b.instrument && a.parameter == b.parameter

unfoldable pub dispatch_id_eq : DispatchId → DispatchId → Bool
dispatch_id_eq a b = a.instance_id == b.instance_id && a.sequence == b.sequence

unfoldable pub lease_eq : OutputLease → OutputLease → Bool
unfolding owner_eq actuator_eq
lease_eq a b =
    actuator_eq a.actuator b.actuator
    && a.instance_id == b.instance_id
    && owner_eq a.owner b.owner
    && a.epoch == b.epoch
    && a.expires == b.expires

pub actuator_eq_iff : (a b : ActuatorId) → (actuator_eq a b ≡ true) ↔ (a ≡ b)
unfolding actuator_eq
actuator_eq_iff a b = (λ h. ground arith, λ h. ground arith)

pub owner_eq_iff : (a b : OutputOwner) → (owner_eq a b ≡ true) ↔ (a ≡ b)
unfolding owner_eq
owner_eq_iff a b = (λ h. ground arith, λ h. ground arith)

pub dispatch_id_eq_iff : (a b : DispatchId) → (dispatch_id_eq a b ≡ true) ↔ (a ≡ b)
unfolding dispatch_id_eq
dispatch_id_eq_iff a b = (λ h. ground arith, λ h. ground arith)

pub lease_eq_iff : (a b : OutputLease) → (lease_eq a b ≡ true) ↔ (a ≡ b)
unfolding lease_eq
lease_eq_iff a b = (λ h. ground arith, λ h. ground arith)

-- `option == Some(lease)` and the like.
unfoldable pub is_lease : Option OutputLease → OutputLease → Bool
is_lease none l = false
is_lease (some m) l = lease_eq m l

unfoldable pub opt_lease_eq : Option OutputLease → Option OutputLease → Bool
unfolding is_lease
opt_lease_eq none none = true
opt_lease_eq none (some l) = false
opt_lease_eq (some l) none = false
opt_lease_eq (some l) (some m) = lease_eq l m

unfoldable pub opt_nat_eq : Option ℕ → Option ℕ → Bool
opt_nat_eq none none = true
opt_nat_eq none (some n) = false
opt_nat_eq (some n) none = false
opt_nat_eq (some m) (some n) = m == n

unfoldable pub bool_eq : Bool → Bool → Bool
bool_eq true b = b
bool_eq false b = not b
