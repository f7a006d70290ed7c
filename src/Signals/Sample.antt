-- ===== src/Signals/Sample.antt =====
-- crates/lab-core/src/signal.rs: Sample, an observation with its times, and a value or a failure.
use lab_runtime.Base.{
  ℕ, Bool, false, ◌&&◌, not, ltb, ◌==◌, u64_eq, if◌then◌else◌, Option, none, some, is_finite,
  Result, ok, err,
}
use lab_runtime.Model.{EngineeringUnit, Error, Value}
use lab_runtime.Signals.Quality.{SampleQuality}

pub record SignalId : Type 0 where
  pub instrument : ℕ
  pub parameter : ℕ

unfoldable pub signal_is : SignalId → SignalId → Bool
signal_is a b = a.instrument == b.instrument && a.parameter == b.parameter

pub data MeasurementFailure : Type 0 where
  disabled sensor_fault transport processing_warmup component_failure : MeasurementFailure

pub data Reading : Type 0 where
  good_reading : Value → Reading
  no_reading : MeasurementFailure → Reading

pub record Sample : Type 0 where
  pub signal : SignalId
  pub unit : EngineeringUnit
  pub at : ℕ
  pub freshness_at : ℕ
  pub reading : Reading

unfoldable pub good_sample : SignalId → EngineeringUnit → ℕ → Value → Sample
good_sample s u at v = record {
  signal = s;
  unit = u;
  at = at;
  freshness_at = at;
  reading = Reading.good_reading v;
}

unfoldable pub unavailable_sample : SignalId → EngineeringUnit → ℕ → MeasurementFailure → Sample
unavailable_sample s u at reason = record {
  signal = s;
  unit = u;
  at = at;
  freshness_at = at;
  reading = Reading.no_reading reason;
}

unfoldable pub is_non_finite : Value → Bool
is_non_finite (Value.float x) = not (is_finite x)
is_non_finite _ = false

unfoldable pub derived_good : SignalId → EngineeringUnit → ℕ → ℕ → Value → Result Error Sample
derived_good s u at freshness_at v =
    if ltb at freshness_at
    then err (Error.invalid_configuration "derived freshness is after publication")
    else if is_non_finite v
    then err Error.non_finite
    else ok (record {
      signal = s;
      unit = u;
      at = at;
      freshness_at = freshness_at;
      reading = Reading.good_reading v;
    })

unfoldable pub validated_good : SignalId → EngineeringUnit → ℕ → Value → Result Error Sample
validated_good s u at v = derived_good s u at at v

unfoldable pub quality : Sample → SampleQuality
quality x = elim x.reading [
  | Reading.good_reading v ↦ SampleQuality.good
  | Reading.no_reading reason ↦ SampleQuality.unavailable
]

unfoldable pub value : Sample → Option Value
value x = elim x.reading [ Reading.good_reading v ↦ some v | Reading.no_reading reason ↦ none ]

unfoldable pub failure : Sample → Option MeasurementFailure
failure x = elim x.reading [
  | Reading.good_reading v ↦ none
  | Reading.no_reading reason ↦ some reason
]
