-- ===== src/Reference/Runtime.antt =====
-- crates/lab-core/src/reference.rs: RuntimeReference, a target with an identity and a revision.
use lab_runtime.Base.{
  ℕ, ◌||◌, not, ◌==◌, u64_eq, if◌then◌else◌, Option, none, some, F64, Result, ok, err, checked_add,
  ok_or, and_then, Act,
}
use lab_runtime.Model.{EngineeringUnit}
use lab_runtime.Reference.Ramp.{
  ReferenceError, ReferenceValue, FixedReference, RampSnapshot, new_fixed, new_ramp, fixed_value_at,
  ramp_value_at, retune_ramp,
}

-- A ReferenceId is its u64.
pub data ReferenceConfig : Type 0 where
  fixed_config : ℕ → F64 → EngineeringUnit → ReferenceConfig
  ramp_config : ℕ → F64 → F64 → F64 → EngineeringUnit → ℕ → ReferenceConfig

unfoldable pub config_id : ReferenceConfig → ℕ
config_id (ReferenceConfig.fixed_config id v u) = id
config_id (ReferenceConfig.ramp_config id start target rate u at) = id

-- Identity, state and revision.
pub data RuntimeReference : Type 0 where
  fixed_target : ℕ → FixedReference → ℕ → RuntimeReference
  ramp_target : ℕ → RampSnapshot → ℕ → RuntimeReference

pub record RetunedRamp : Type 0 where
  pub state : RampSnapshot
  pub revision : ℕ

unfoldable pub make_reference : ReferenceConfig → Result ReferenceError RuntimeReference
make_reference (ReferenceConfig.fixed_config id v u) =
    and_then (new_fixed v u) λ r. ok (RuntimeReference.fixed_target id r 1)
make_reference (ReferenceConfig.ramp_config id start target rate u at) =
    and_then (new_ramp start target rate u at) λ r. ok (RuntimeReference.ramp_target id r 1)

unfoldable pub reference_unit : RuntimeReference → EngineeringUnit
reference_unit (RuntimeReference.fixed_target id r n) = r.unit
reference_unit (RuntimeReference.ramp_target id r n) = r.unit

unfoldable pub revision_of : RuntimeReference → ℕ
revision_of (RuntimeReference.fixed_target id r n) = n
revision_of (RuntimeReference.ramp_target id r n) = n

unfoldable pub id_of : RuntimeReference → ℕ
id_of (RuntimeReference.fixed_target id r n) = id
id_of (RuntimeReference.ramp_target id r n) = id

unfoldable pub set_revision : ℕ → RuntimeReference → RuntimeReference
set_revision k (RuntimeReference.fixed_target id r n) = RuntimeReference.fixed_target id r k
set_revision k (RuntimeReference.ramp_target id r n) = RuntimeReference.ramp_target id r k

-- The complete replacement, or the reason why there is none.
unfoldable pub replacement :
    ReferenceConfig → ℕ → RuntimeReference → Result ReferenceError RuntimeReference
replacement c expected r =
    if not (config_id c == id_of r) || not (revision_of r == expected)
    then err ReferenceError.revision_conflict
    else and_then (ok_or (checked_add expected 1) ReferenceError.revision_exhausted)
        λ next. and_then (make_reference c) λ candidate. ok (set_revision next candidate)

-- A snapshot has the data of the reference itself.
unfoldable pub replace_by :
    Result ReferenceError RuntimeReference → Act RuntimeReference ReferenceError RuntimeReference
replace_by (ok c) r = (ok c, c)
replace_by (err e) r = (err e, r)

unfoldable pub reconfigure :
    ReferenceConfig → ℕ → Act RuntimeReference ReferenceError RuntimeReference
reconfigure c expected r = replace_by (replacement c expected r) r

unfoldable pub with_fixed :
    ℕ
    → ℕ
    → Result ReferenceError ReferenceValue × FixedReference
    → Result ReferenceError ReferenceValue × RuntimeReference
with_fixed id n (v, r) = (v, RuntimeReference.fixed_target id r n)

unfoldable pub with_ramp :
    ℕ
    → ℕ
    → Result ReferenceError ReferenceValue × RampSnapshot
    → Result ReferenceError ReferenceValue × RuntimeReference
with_ramp id n (v, r) = (v, RuntimeReference.ramp_target id r n)

unfoldable pub value_at : ℕ → Act RuntimeReference ReferenceError ReferenceValue
value_at at (RuntimeReference.fixed_target id r n) = with_fixed id n (fixed_value_at at r)
value_at at (RuntimeReference.ramp_target id r n) = with_ramp id n (ramp_value_at at r)

unfoldable pub retuned :
    ℕ
    → ℕ
    → ℕ
    → Result ReferenceError (Unit {0}) × RampSnapshot
    → Result ReferenceError RetunedRamp × RuntimeReference
retuned id n next (ok done, s) =
    (ok (record { state = s; revision = next }), RuntimeReference.ramp_target id s next)
retuned id n next (err e, s) = (err e, RuntimeReference.ramp_target id s n)

-- `revision.checked_add(1)`, then the ramp's own retune.
unfoldable pub retune_at :
    Option ℕ
    → F64
    → F64
    → ℕ
    → ℕ
    → RampSnapshot
    → ℕ
    → Result ReferenceError RetunedRamp × RuntimeReference
retune_at none target rate at id s n =
    (err ReferenceError.revision_exhausted, RuntimeReference.ramp_target id s n)
retune_at (some next) target rate at id s n = retuned id n next (retune_ramp target rate at s)

unfoldable pub retune : F64 → F64 → ℕ → ℕ → Act RuntimeReference ReferenceError RetunedRamp
retune target rate expected at (RuntimeReference.fixed_target id r n) =
    (err ReferenceError.not_ramp, RuntimeReference.fixed_target id r n)
retune target rate expected at (RuntimeReference.ramp_target id s n) =
    if not (n == expected)
    then (err ReferenceError.revision_conflict, RuntimeReference.ramp_target id s n)
    else retune_at (checked_add n 1) target rate at id s n
