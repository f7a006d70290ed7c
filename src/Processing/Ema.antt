-- ===== src/Processing/Ema.antt =====
-- crates/lab-core/src/processing.rs: EmaConfig, EmaSnapshot and the methods of Ema. `exp_m1` is the
-- platform's function. The error `panicked` is not the source's: it stands for its `unreachable!`.
use lab_runtime.Base.{
  ℕ, ◌+◌, ◌-◌, Bool, false, ◌||◌, not, ltb, leb, ◌==◌, u64_eq, if◌then◌else◌, u64_max, min, Option,
  none, some, F64, is_finite, f64_neg, f64_add, f64_sub, f64_mul, f64_div, as_secs, Result, ok, err,
  guard, and_then, Act,
}
use lab_runtime.Model.{EngineeringUnit, unit_eq}
use lab_runtime.Signals.Quality.{SampleQuality}

pub data ProcessingError : Type 0 where
  invalid_configuration non_finite wrong_unit invalid_quality invalid_time panicked :
      ProcessingError

pub record EmaConfig : Type 0 where
  pub time_constant : ℕ
  pub warmup_samples : ℕ
  pub unit : EngineeringUnit

pub data EmaStatus : Type 0 where
  warming_up ready unavailable : EmaStatus

pub record EmaUpdate : Type 0 where
  pub value : Option F64
  pub status : EmaStatus
  pub at : ℕ
  pub unit : EngineeringUnit

pub record EmaSnapshot : Type 0 where
  pub value : Option F64
  pub last_at : Option ℕ
  pub good_samples : ℕ

pub record Ema : Type 0 where
  pub config : EmaConfig
  pub state : EmaSnapshot

abbrev pub empty_snapshot : EmaSnapshot
empty_snapshot = record { value = none; last_at = none; good_samples = 0 }

unfoldable pub new : EmaConfig → Result ProcessingError Ema
new c =
    if c.time_constant == 0 || c.warmup_samples == 0
    then err ProcessingError.invalid_configuration
    else ok (record { config = c; state = empty_snapshot })

-- `previous_value + alpha * (value - previous_value)`, where `alpha = -(-elapsed / tau).exp_m1()`.
unfoldable pub filtered : (F64 → F64) → ℕ → F64 → ℕ → F64 → F64
filtered exp_m1 tau previous elapsed v =
    let alpha = f64_neg (exp_m1 (f64_div (f64_neg (as_secs elapsed)) (as_secs tau))) in
    f64_add previous (f64_mul alpha (f64_sub v previous))

unfoldable pub candidate :
    (F64 → F64) → ℕ → Option F64 → Option ℕ → F64 → ℕ → Result ProcessingError F64
candidate exp_m1 tau none none v at = ok v
candidate exp_m1 tau (some x) (some t) v at =
    if ltb t at then ok (filtered exp_m1 tau x (at - t) v) else err ProcessingError.invalid_time
candidate exp_m1 tau none (some t) v at = err ProcessingError.panicked
candidate exp_m1 tau (some x) none v at = err ProcessingError.panicked

-- The count of good samples after one more.
unfoldable pub counted : Ema → ℕ
counted e = min (min (e.state.good_samples + 1) u64_max) e.config.warmup_samples

unfoldable pub commit : F64 → ℕ → Ema → Ema
commit x at e = record e {
  state = record { value = some x; last_at = some at; good_samples = counted e };
}

unfoldable pub status_of : ℕ → EmaConfig → EmaStatus
status_of n c = if n == c.warmup_samples then EmaStatus.ready else EmaStatus.warming_up

unfoldable pub finite_candidate : (F64 → F64) → F64 → ℕ → Ema → Result ProcessingError F64
finite_candidate exp_m1 v at e =
    and_then (candidate exp_m1 e.config.time_constant e.state.value e.state.last_at v at)
      λ x. and_then (guard (is_finite x) ProcessingError.non_finite) λ _. ok x

unfoldable pub commit_good :
    Result ProcessingError F64 → EngineeringUnit → ℕ → Act Ema ProcessingError EmaUpdate
commit_good (err r) u at e = (err r, e)
commit_good (ok x) u at e = (
  ok (record { value = some x; status = status_of (counted e) e.config; at = at; unit = u }),
  commit x at e,
)

-- `last_at.is_some_and(|previous| at <= previous)`.
unfoldable pub is_late : ℕ → Option ℕ → Bool
is_late at none = false
is_late at (some t) = leb at t

unfoldable pub attempt :
    (F64 → F64)
    → Option F64
    → SampleQuality
    → EngineeringUnit
    → ℕ
    → Act Ema ProcessingError EmaUpdate
attempt exp_m1 none SampleQuality.unavailable u at e =
    if is_late at e.state.last_at
    then (err ProcessingError.invalid_time, e)
    else (ok (record { value = none; status = EmaStatus.unavailable; at = at; unit = u }), e)
attempt exp_m1 (some v) SampleQuality.good u at e =
    if is_finite v
    then commit_good (finite_candidate exp_m1 v at e) u at e
    else (err ProcessingError.non_finite, e)
attempt exp_m1 none SampleQuality.good u at e = (err ProcessingError.invalid_quality, e)
attempt exp_m1 (some v) SampleQuality.unavailable u at e = (err ProcessingError.invalid_quality, e)

unfoldable pub update :
    (F64 → F64)
    → Option F64
    → SampleQuality
    → EngineeringUnit
    → ℕ
    → Act Ema ProcessingError EmaUpdate
update exp_m1 v q u at e =
    if not (unit_eq u e.config.unit)
    then (err ProcessingError.wrong_unit, e)
    else attempt exp_m1 v q u at e

unfoldable pub retune : ℕ → Act Ema ProcessingError (Unit {0})
retune t e =
    if t == 0
    then (err ProcessingError.invalid_configuration, e)
    else (ok tt, record e { config = record (e.config) { time_constant = t } })

unfoldable pub snapshot : Ema → EmaSnapshot
snapshot e = e.state

unfoldable pub reset : Ema → Ema
reset e = record e { state = empty_snapshot }
