-- ===== src/Control/Windup.antt =====
-- crates/lab-core/src/control.rs: the conditional anti-windup.
use lab_runtime.Base.{
  ℕ, ◌≡◌, ◌⊎◌, inl, inr, refl, sym, ap, ◌∙◌, Bool, true, ◌||◌, not, F64, is_finite, f64_lt,
  f64_zero, f64_add, f64_sub, f64_mul, Result, ok, err, arith, Bool-cases,
}
use lab_runtime.Control.Pid.{
  Pid, PidConfig, PidError, PidUpdate, Step, pushes_upper, pushes_lower, chosen_integral, calculate,
  all_finite, remember, finish_update, update,
}

abbrev pub pushes : PidConfig → F64 → F64 → Bool
pushes c unconstrained error =
    pushes_upper c unconstrained error || pushes_lower c unconstrained error

-- The integral moves only to where the sum does not push beyond a limit.
chosen_kept :
    (c : PidConfig) (integral p error : F64) (s : Step)
    → pushes c (f64_add (f64_add p (chosen_integral c integral p error s)) s.derivative) error
      ≡ true
    → chosen_integral c integral p error s ≡ integral
unfolding chosen_integral
chosen_kept c integral p error s h =
    elim (Bool-cases (pushes c (f64_add (f64_add p s.candidate_integral) s.derivative) error)) [
      | inl e ↦ rw e refl
      | inr e ↦ absurd (let h' = rw e at h in ground (arith, h', e))
    ]

finished_memory :
    (x : Pid) (measurement error : F64) (at : ℕ) (r : Result PidError Step) (u : PidUpdate)
    → (finish_update measurement error at r x).0 ≡ ok u
    → (finish_update measurement error at r x).1.state.integral ≡ u.i
unfolding finish_update remember
finished_memory x measurement error at (err e) u h = absurd (ground arith)
finished_memory x measurement error at (ok s) u h =
    elim (Bool-cases (all_finite error (calculate x.config x.state.integral error at s))) [
      | inl f ↦ rw f (ap (λ (w : PidUpdate). w.i) (told (rw f at h)))
      | inr f ↦ absurd (let h' = rw f at h in ground (arith, h'))
    ]
  where
    told : {a b : PidUpdate} → Path (Result PidError PidUpdate) (ok a) (ok b) → a ≡ b
    told h = ground (arith, h)

finished_kept :
    (x : Pid) (measurement error : F64) (at : ℕ) (r : Result PidError Step) (u : PidUpdate)
    → (finish_update measurement error at r x).0 ≡ ok u
    → pushes x.config u.unconstrained error ≡ true
    → u.i ≡ x.state.integral
unfolding finish_update calculate
finished_kept x measurement error at (err e) u h full = absurd (ground arith)
finished_kept x measurement error at (ok s) u h full =
    elim (Bool-cases (all_finite error (calculate x.config x.state.integral error at s))) [
      | inl f ↦
          let h' : calculate x.config x.state.integral error at s ≡ u = told (rw f at h) in
          ap (λ (w : PidUpdate). w.i) (sym h')
          ∙ chosen_kept x.config x.state.integral (f64_mul x.config.kp error) error s
              (ap (λ (w : PidUpdate). pushes x.config w.unconstrained error) h' ∙ full)
      | inr f ↦ absurd (let h' = rw f at h in ground (arith, h'))
    ]
  where
    told : {a b : PidUpdate} → Path (Result PidError PidUpdate) (ok a) (ok b) → a ≡ b
    told h = ground (arith, h)

-- The sum of an update lies beyond a limit of the output, and the error points there too.
abbrev pub BeyondLimit : PidConfig → F64 → F64 → Type 0
BeyondLimit c unconstrained error =
    ((f64_lt c.output_max unconstrained ≡ true) × (f64_lt f64_zero error ≡ true))
    ⊎ ((f64_lt unconstrained c.output_min ≡ true) × (f64_lt error f64_zero ≡ true))

BeyondLimit-pushes :
    (c : PidConfig) (unconstrained error : F64)
    → BeyondLimit c unconstrained error
    → pushes c unconstrained error ≡ true
unfolding pushes_upper pushes_lower
BeyondLimit-pushes c unconstrained error (inl (beyond, up)) = rw (beyond, up) refl
BeyondLimit-pushes c unconstrained error (inr (below, down)) = ground (arith, below, down)

-- An update whose sum lies above the upper limit with a positive error, or below the lower limit with a
-- negative error, keeps the integral of before, in its answer and in the algorithm's memory.
pub saturated_keeps_integral :
    (x : Pid) (measurement setpoint : F64) (at : ℕ) (u : PidUpdate)
    → (update measurement setpoint at x).0 ≡ ok u
    → BeyondLimit x.config u.unconstrained (f64_sub setpoint measurement)
    → (u.i ≡ x.state.integral)
      × ((update measurement setpoint at x).1.state.integral ≡ x.state.integral)
unfolding update
saturated_keeps_integral x measurement setpoint at u h saturated =
    let full =
      BeyondLimit-pushes x.config u.unconstrained (f64_sub setpoint measurement) saturated in
    elim (Bool-cases (not (is_finite measurement) || not (is_finite setpoint))) [
      | inl f ↦ absurd (let h' = rw f at h in ground (arith, h'))
      | inr f ↦
          let kept =
            finished_kept x measurement (f64_sub setpoint measurement) at _ u (rw f at h) full in
          (
            kept,
            rw f (
                finished_memory x measurement (f64_sub setpoint measurement) at _ u (rw f at h)
                ∙ kept),
          )
    ]
