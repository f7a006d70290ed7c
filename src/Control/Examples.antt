-- ===== src/Control/Examples.antt =====
-- crates/lab-core/src/control.rs: a PID with gains 2, 1 and 0 and an output from 0 to 10.
use lab_runtime.Base.{
  ◌≡◌, inl, refl, true, [], ◌∷◌, f64_of_nat, f64_neg, f64_add, f64_sub, f64_mul, f64_div, f64_lt,
  f64_le, f64_clamp, f64_zero, le_ℤ, as_secs, ok, excess, nearest, signed, round_ratio, is_negative,
  magnitude, neg_ℤ, sum_units, differ, scaled_infinity, quotient, is_finite,
}
use lab_runtime.Control.Pid.{
  Pid, PidConfig, PidUpdate, empty_memory, is_valid_config, new, step_from, pushes_upper,
  pushes_lower, chosen_integral, calculate, all_finite, remember, finish_update, update,
}
use lab_runtime.Control.Limits.{PidCall, call, calls, Updating, outputs_within_limits}
use lab_runtime.Control.Windup.{saturated_keeps_integral}

abbrev gains : PidConfig
gains = record {
  kp = f64_of_nat 2;
  ki = f64_of_nat 1;
  kd = f64_zero;
  output_min = f64_zero;
  output_max = f64_of_nat 10;
}

abbrev idle : Pid
idle = record { config = gains; state = empty_memory }

idle_made : new gains ≡ ok idle
unfolding new is_valid_config is_finite f64_le le_ℤ f64_of_nat round_ratio excess nearest signed
idle_made = refl

outputs_within_limits_example :
    Updating
      (calls (PidCall.updated (f64_of_nat 20) (f64_of_nat 21) 1 ∷ []) idle)
      (f64_of_nat 19)
      (f64_of_nat 30)
      1000000001
      (update
        (f64_of_nat 19)
        (f64_of_nat 30)
        1000000001
        (calls (PidCall.updated (f64_of_nat 20) (f64_of_nat 21) 1 ∷ []) idle))
outputs_within_limits_example =
    outputs_within_limits gains idle (PidCall.updated (f64_of_nat 20) (f64_of_nat 21) 1 ∷ [])
      (f64_of_nat 19) (f64_of_nat 30) 1000000001 idle_made

-- After a first update, a distance of 11 for one second pushes beyond the upper limit.
abbrev running : Pid
running = calls (PidCall.updated (f64_of_nat 20) (f64_of_nat 21) 1 ∷ []) idle

abbrev saturated : PidUpdate
saturated = record {
  p = f64_of_nat 22;
  i = f64_zero;
  d = f64_zero;
  unconstrained = f64_of_nat 22;
  output = f64_of_nat 10;
  at = 1000000001;
}

saturated_told : (update (f64_of_nat 19) (f64_of_nat 30) 1000000001 running).0 ≡ ok saturated
unfolding calls call update finish_update step_from calculate chosen_integral pushes_upper
    pushes_lower all_finite remember f64_clamp is_finite f64_lt f64_le le_ℤ f64_of_nat round_ratio
    excess nearest signed f64_neg f64_add f64_sub f64_mul f64_div as_secs is_negative magnitude
    neg_ℤ sum_units differ scaled_infinity quotient
saturated_told = refl

saturated_pushes :
    (f64_lt running.config.output_max (f64_of_nat 22) ≡ true)
    × (f64_lt f64_zero (f64_sub (f64_of_nat 30) (f64_of_nat 19)) ≡ true)
unfolding calls call update finish_update step_from calculate chosen_integral pushes_upper
    pushes_lower all_finite remember f64_clamp is_finite f64_lt f64_le le_ℤ f64_of_nat round_ratio
    excess nearest signed f64_neg f64_add f64_sub f64_mul f64_div as_secs is_negative magnitude
    neg_ℤ sum_units differ scaled_infinity quotient
saturated_pushes = (refl, refl)

saturated_keeps_integral_example :
    (saturated.i ≡ running.state.integral)
    × ((update (f64_of_nat 19) (f64_of_nat 30) 1000000001 running).1.state.integral
        ≡ running.state.integral)
saturated_keeps_integral_example =
    saturated_keeps_integral running (f64_of_nat 19) (f64_of_nat 30) 1000000001 saturated
      saturated_told (inl saturated_pushes)
