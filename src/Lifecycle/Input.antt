-- ===== src/Lifecycle/Input.antt =====
-- crates/lab-core/src/runtime/controllers.rs: `control_input`, the usable observation of a tick.
use lab_runtime.Base.{
  ℕ, ◌-◌, ltb, leb, if◌then◌else◌, Option, none, some, F64, is_finite, Result, ok, err,
}
use lab_runtime.Model.{EngineeringUnit, ControllerError, Value}
use lab_runtime.Signals.Sample.{Sample, Reading}
use lab_runtime.Signals.Buffer.{SignalBuffer, latest}

pub record Input : Type 0 where
  pub value : F64
  pub unit : EngineeringUnit
  pub sample_at : ℕ

-- The value of a reading that is there and fresh.
unfoldable pub usable : Value → Sample → Result ControllerError Input
usable (Value.float x) s =
    if is_finite x
    then ok (record { value = x; unit = s.unit; sample_at = s.freshness_at })
    else err ControllerError.input_unavailable
usable _ s = err ControllerError.input_unavailable

unfoldable pub fresh_reading : Reading → Sample → ℕ → ℕ → Result ControllerError Input
fresh_reading (Reading.no_reading reason) s at max_age = err ControllerError.input_unavailable
fresh_reading (Reading.good_reading v) s at max_age =
    if ltb at s.freshness_at
    then err ControllerError.invalid_tick_time
    else if leb max_age (at - s.freshness_at)
    then err ControllerError.stale_input
    else usable v s

unfoldable pub input_of : Option Sample → ℕ → ℕ → Result ControllerError Input
input_of none at max_age = err ControllerError.input_unavailable
input_of (some s) at max_age = fresh_reading s.reading s at max_age

unfoldable pub control_input : SignalBuffer → ℕ → ℕ → Result ControllerError Input
control_input b at max_age = input_of (latest b) at max_age
