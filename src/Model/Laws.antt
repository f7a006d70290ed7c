-- ===== src/Model/Laws.antt =====
-- What validation accepts.
use lab_runtime.Base.{◌≡◌, ◌↔◌, true, F64, is_finite, in_range, f64_le, ok, arith}
use lab_runtime.Model.Defs.{Value, ValueSpec, validate, definition_valid, check_value}

-- A float schema accepts exactly the floats that are finite and within its finite, ordered bounds.
pub validate-float_iff :
    (lo hi : F64) (v : Value)
    → (validate (ValueSpec.float lo hi) v ≡ ok tt) ↔ (
        (x : F64) × (v ≡ Value.float x)
        × (is_finite lo ≡ true)
        × (is_finite hi ≡ true)
        × (f64_le lo hi ≡ true)
        × (is_finite x ≡ true)
        × (in_range lo hi x ≡ true))
unfolding validate definition_valid check_value
validate-float_iff lo hi (Value.float x) = (
  λ h. (x, ground arith, ground arith, ground arith, ground arith, ground arith, ground arith),
  λ h. ground arith,
)
validate-float_iff lo hi v = (λ h. ground arith, λ h. ground arith)
