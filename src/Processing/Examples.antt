-- ===== src/Processing/Examples.antt =====
-- crates/lab-core/src/processing.rs: a filter of one second that is ready after two samples. The
-- stand-in for `exp_m1` is -1 everywhere, as of an input that is far in the past.
use lab_runtime.Base.{
  ◌+◌, ◌≤◌, ◌≡◌, ◌↔◌, refl, none, some, List, [], ◌∷◌, F64, f64_of_nat, f64_neg, f64_add, f64_sub,
  f64_mul, f64_div, as_secs, arith, ok, excess, nearest, signed, round_ratio, is_negative,
  magnitude, neg_ℤ, sum_units, differ, scaled_infinity, quotient, is_finite,
}
use lab_runtime.Model.{EngineeringUnit, unit_eq}
use lab_runtime.Signals.Quality.{SampleQuality}
use lab_runtime.Processing.Ema.{
  Ema, EmaConfig, EmaUpdate, EmaStatus, empty_snapshot, new, filtered, candidate, finite_candidate,
  counted, commit, commit_good, status_of, is_late, attempt, update,
}
use lab_runtime.Processing.History.{EmaCall, call, calls, accepted_goods}
use lab_runtime.Processing.Warmup.{Outcome, updates_answered, ready_exactly}

abbrev settled : F64 → F64
settled x = f64_neg (f64_of_nat 1)

abbrev kelvin : EngineeringUnit
kelvin = record { id = "K"; symbol = "K" }

abbrev policy : EmaConfig
policy = record { time_constant = 1000000000; warmup_samples = 2; unit = kelvin }

abbrev fresh : Ema
fresh = record { config = policy; state = empty_snapshot }

fresh_made : new policy ≡ ok fresh
unfolding new
fresh_made = refl

abbrev one_sample : List EmaCall
one_sample =
    EmaCall.update_with (some (f64_of_nat 4)) SampleQuality.good kelvin 7
    ∷ EmaCall.update_with none SampleQuality.unavailable kelvin 8
    ∷ []

abbrev second : EmaUpdate
second = record { value = some (f64_of_nat 6); status = EmaStatus.ready; at = 9; unit = kelvin }

second_answer :
    (update settled
      (some (f64_of_nat 6))
      SampleQuality.good
      kelvin
      9
      (calls settled one_sample fresh)).0
    ≡ ok second
unfolding update attempt commit_good finite_candidate candidate filtered counted commit status_of
    is_late calls call unit_eq is_finite f64_of_nat f64_neg f64_add f64_sub f64_mul f64_div as_secs
    excess nearest signed round_ratio is_negative magnitude neg_ℤ sum_units differ scaled_infinity
    quotient
second_answer = refl

updates_answered_example : Outcome (calls settled one_sample fresh) 9 (
    update settled
      (some (f64_of_nat 6))
      SampleQuality.good
      kelvin
      9
      (calls settled one_sample fresh))
updates_answered_example =
    updates_answered settled policy fresh one_sample (omega arith) fresh_made (some (f64_of_nat 6))
      SampleQuality.good kelvin 9

ready_exactly_example :
    (second.status ≡ EmaStatus.ready) ↔ (2 ≤ accepted_goods settled one_sample fresh 0 + 1)
ready_exactly_example =
    ready_exactly settled policy fresh one_sample (omega arith) fresh_made (some (f64_of_nat 6))
      SampleQuality.good kelvin 9 second (f64_of_nat 6) second_answer refl
