-- ===== src/Reference/Ramp.antt =====
-- crates/lab-core/src/reference.rs: FixedReference, RampReference and validate_ramp. An instant is a
-- count of nanoseconds.
use lab_runtime.Base.{
  ℕ, ◌-◌, Bool, false, ◌&&◌, not, ltb, if◌then◌else◌, Option, none, some, F64, is_finite, f64_add,
  f64_sub, f64_mul, f64_abs, f64_min, f64_signum, f64_lt, f64_zero, as_secs, Result, ok, err, guard,
  Act, run_on,
}
use lab_runtime.Model.{EngineeringUnit}

pub data ReferenceError : Type 0 where
  invalid_configuration invalid_time revision_conflict not_ramp revision_exhausted : ReferenceError

pub record ReferenceValue : Type 0 where
  pub value : F64
  pub unit : EngineeringUnit
  pub at : ℕ

pub record FixedReference : Type 0 where
  pub value : F64
  pub unit : EngineeringUnit
  pub last_at : Option ℕ

unfoldable pub new_fixed : F64 → EngineeringUnit → Result ReferenceError FixedReference
new_fixed v u =
    if not (is_finite v)
    then err ReferenceError.invalid_configuration
    else ok (record { value = v; unit = u; last_at = none })

unfoldable pub precedes : ℕ → Option ℕ → Bool
precedes at none = false
precedes at (some previous) = ltb at previous

unfoldable pub fixed_value_at : ℕ → Act FixedReference ReferenceError ReferenceValue
fixed_value_at at r =
    if precedes at r.last_at
    then (err ReferenceError.invalid_time, r)
    else (ok (record { value = r.value; unit = r.unit; at = at }), record r { last_at = some at })

pub record RampSnapshot : Type 0 where
  pub current : F64
  pub target : F64
  pub rate : F64
  pub unit : EngineeringUnit
  pub last_at : ℕ

unfoldable pub validate_ramp : F64 → F64 → F64 → Result ReferenceError (Unit {0})
validate_ramp start target rate =
    guard (is_finite start && is_finite target && is_finite rate && f64_lt f64_zero rate)
      ReferenceError.invalid_configuration

unfoldable pub make_ramp :
    Result ReferenceError (Unit {0}) → RampSnapshot → Result ReferenceError RampSnapshot
make_ramp (ok done) s = ok s
make_ramp (err e) s = err e

unfoldable pub new_ramp : F64 → F64 → F64 → EngineeringUnit → ℕ → Result ReferenceError RampSnapshot
new_ramp start target rate u at =
    make_ramp (validate_ramp start target rate)
      (record { current = start; target = target; rate = rate; unit = u; last_at = at })

-- The step towards the target after `elapsed` nanoseconds.
unfoldable pub ramp_step : RampSnapshot → ℕ → F64
ramp_step s elapsed =
    let distance = f64_sub s.target s.current in
    f64_mul (f64_signum distance) (f64_min (f64_abs distance) (f64_mul s.rate (as_secs elapsed)))

unfoldable pub candidate_at : ℕ → RampSnapshot → Result ReferenceError F64
candidate_at at s =
    if ltb at s.last_at
    then err ReferenceError.invalid_time
    else let candidate = f64_add s.current (ramp_step s (at - s.last_at)) in
      if is_finite candidate then ok candidate else err ReferenceError.invalid_configuration

unfoldable pub move_to :
    Result ReferenceError F64 → ℕ → Act RampSnapshot ReferenceError ReferenceValue
move_to (err e) at s = (err e, s)
move_to (ok x) at s =
    (ok (record { value = x; unit = s.unit; at = at }), record s { current = x; last_at = at })

unfoldable pub ramp_value_at : ℕ → Act RampSnapshot ReferenceError ReferenceValue
ramp_value_at at s = move_to (candidate_at at s) at s

unfoldable pub turn_to :
    Result ReferenceError F64 → F64 → F64 → ℕ → Act RampSnapshot ReferenceError (Unit {0})
turn_to (err e) target rate at s = (err e, s)
turn_to (ok x) target rate at s =
    (ok tt, record { current = x; target = target; rate = rate; unit = s.unit; last_at = at })

unfoldable pub retune_ramp : F64 → F64 → ℕ → Act RampSnapshot ReferenceError (Unit {0})
retune_ramp target rate at s =
    run_on (validate_ramp s.current target rate, s)
      λ _ t. turn_to (candidate_at at t) target rate at t
