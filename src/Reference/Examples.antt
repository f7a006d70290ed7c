-- ===== src/Reference/Examples.antt =====
-- crates/lab-core/src/reference.rs: a ramp from 2 to 8 by two units a second, read after a second.
use lab_runtime.Base.{
  ◌≡◌, refl, [], ◌∷◌, f64_of_nat, f64_neg, f64_add, f64_sub, f64_mul, f64_div, f64_abs, f64_min,
  f64_signum, f64_lt, f64_le, le_ℤ, as_secs, ok, err, excess, nearest, signed, round_ratio,
  is_negative, magnitude, neg_ℤ, sum_units, differ, scaled_infinity, quotient, is_finite,
  checked_add,
}
use lab_runtime.Model.{EngineeringUnit}
use lab_runtime.Reference.Ramp.{
  ReferenceError, RampSnapshot, new_ramp, make_ramp, validate_ramp, ramp_step, candidate_at,
  move_to, ramp_value_at, turn_to, retune_ramp,
}
use lab_runtime.Reference.Runtime.{
  RuntimeReference, ReferenceConfig, make_reference, with_ramp, value_at, retuned, retune_at,
  retune,
}
use lab_runtime.Reference.Trajectory.{ReferenceCall, calls, Evaluation, evaluations_in_order}
use lab_runtime.Reference.Revisions.{
  Change, apply_change, Retuning, retune-Retuning, revision_used_once,
}

abbrev bar : EngineeringUnit
bar = record { id = "bar"; symbol = "bar" }

abbrev rising : ReferenceConfig
rising = ReferenceConfig.ramp_config 3 (f64_of_nat 2) (f64_of_nat 8) (f64_of_nat 2) bar 0

abbrev at_start : RampSnapshot
at_start = record {
  current = f64_of_nat 2;
  target = f64_of_nat 8;
  rate = f64_of_nat 2;
  unit = bar;
  last_at = 0;
}

abbrev start : RuntimeReference
start = RuntimeReference.ramp_target 3 at_start 1

start_made : make_reference rising ≡ ok start
unfolding make_reference new_ramp make_ramp validate_ramp is_finite f64_lt f64_le le_ℤ f64_of_nat
    round_ratio excess nearest signed
start_made = refl

after_a_second :
    (value_at 1000000000 start).0
    ≡ ok (record { value = f64_of_nat 4; unit = bar; at = 1000000000 })
unfolding value_at with_ramp ramp_value_at move_to candidate_at ramp_step is_finite f64_lt f64_le
    le_ℤ f64_of_nat round_ratio excess nearest signed f64_neg f64_add f64_sub f64_mul f64_div
    f64_abs f64_min f64_signum as_secs is_negative magnitude neg_ℤ sum_units differ scaled_infinity
    quotient
after_a_second = refl

evaluations_in_order_example :
    Evaluation
      (calls (ReferenceCall.evaluated 5 ∷ []) start)
      1000000000
      (value_at 1000000000 (calls (ReferenceCall.evaluated 5 ∷ []) start))
evaluations_in_order_example =
    evaluations_in_order rising start (ReferenceCall.evaluated 5 ∷ []) 1000000000 start_made

retune-Retuning_example :
    Retuning
      (f64_of_nat 1)
      (f64_of_nat 1)
      1
      1000000000
      start
      (retune (f64_of_nat 1) (f64_of_nat 1) 1 1000000000 start)
retune-Retuning_example = retune-Retuning (f64_of_nat 1) (f64_of_nat 1) 1 1000000000 start

abbrev downwards : Change
downwards = Change.retuning (f64_of_nat 1) (f64_of_nat 1) 1000000000

downwards_made : (apply_change downwards 1 start).0 ≡ ok tt
unfolding apply_change retune retune_at retuned retune_ramp turn_to validate_ramp candidate_at
    ramp_step is_finite f64_lt f64_le le_ℤ f64_of_nat round_ratio excess nearest signed f64_neg
    f64_add f64_sub f64_mul f64_div f64_abs f64_min f64_signum as_secs is_negative magnitude neg_ℤ
    sum_units differ scaled_infinity quotient checked_add
downwards_made = refl

abbrev later : RuntimeReference
later = calls (ReferenceCall.evaluated 2000000000 ∷ []) (apply_change downwards 1 start).1

revision_used_once_example :
    ((e : ReferenceError) × ((apply_change (Change.replacing rising) 1 later).0 ≡ err e))
    × ((apply_change (Change.replacing rising) 1 later).1 ≡ later)
revision_used_once_example =
    revision_used_once start 1 downwards (Change.replacing rising)
      (ReferenceCall.evaluated 2000000000 ∷ []) downwards_made

-- The ramp towards 0.9 from 10^16 passes its target, since the distance is rounded.
abbrev distant : RampSnapshot
distant = record {
  current = f64_of_nat 10000000000000000;
  target = f64_div (f64_of_nat 9) (f64_of_nat 10);
  rate = f64_of_nat 20000000000000000;
  unit = bar;
  last_at = 0;
}

distant_passes_target :
    (ramp_value_at 1000000000 distant).0
    ≡ ok (record { value = f64_of_nat 0; unit = bar; at = 1000000000 })
unfolding ramp_value_at move_to candidate_at ramp_step is_finite f64_lt f64_le le_ℤ f64_of_nat
    round_ratio excess nearest signed f64_neg f64_add f64_sub f64_mul f64_div f64_abs f64_min
    f64_signum as_secs is_negative magnitude neg_ℤ sum_units differ scaled_infinity quotient
distant_passes_target = refl
