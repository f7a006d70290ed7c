-- ===== src/Control/Limits.antt =====
-- crates/lab-core/src/control.rs: whatever the calls, an output lies within the configured limits.
use lab_runtime.Base.{
  ℕ, ◌<◌, ◌≡◌, ◌≢◌, inl, inr, refl, sym, ap, subst, ◌∙◌, true, ◌||◌, not, Option, none, some, List,
  [], ◌∷◌, F64, is_finite, f64_le, f64_add, f64_sub, f64_clamp, f64_clamp-in_range, f64_le_total,
  Result, ok, err, arith, Bool-cases, OnSome,
}
use lab_runtime.Control.Pid.{
  Pid, PidConfig, PidError, PidUpdate, Step, is_valid_config, new, step_from, calculate, all_finite,
  remember, finish_update, update, reset,
}

-- Measurement and time are there together.
unfoldable pub Paired : Option F64 → Option ℕ → Type 0
Paired none none = Unit {0}
Paired (some x) (some t) = Unit {0}
Paired none (some t) = ⊥
Paired (some x) none = ⊥

pub record Sound (c : PidConfig) (x : Pid) : Type 0 where
  pub config_kept : x.config ≡ c
  pub integral_finite : is_finite x.state.integral ≡ true
  pub paired : Paired x.state.previous_measurement x.state.last_at

-- What an update tells and keeps.
pub record Controlled (x : Pid) (measurement setpoint : F64) (at : ℕ) (u : PidUpdate) (x' : Pid)
    : Type 0 where
  pub within :
      (f64_le x.config.output_min u.output ≡ true) × (f64_le u.output x.config.output_max ≡ true)
  pub finite : is_finite u.output ≡ true
  pub integral_finite : is_finite u.i ≡ true
  pub instant : u.at ≡ at
  pub later : OnSome (λ t. t < at) x.state.last_at
  -- The output is the sum of the contributions, clamped.
  pub clamped :
      u.output ≡ f64_clamp (f64_add (f64_add u.p u.i) u.d) x.config.output_min x.config.output_max
  pub remembered : x' ≡ remember measurement u x

unfoldable pub Updating : Pid → F64 → F64 → ℕ → Result PidError PidUpdate × Pid → Type 0
Updating x measurement setpoint at (ok u, x') = Controlled x measurement setpoint at u x'
Updating x measurement setpoint at (err e, x') = (e ≢ PidError.panicked) × (x' ≡ x)

step_later :
    (c : PidConfig) (i m e : F64) (pm : Option F64) (t : Option ℕ) (at : ℕ)
    → Paired pm t
    → (s : Step) → step_from c i pm t m e at ≡ ok s
    → OnSome (λ b. b < at) t
unfolding step_from Paired
step_later c i m e none none at p s h = tt
step_later c i m e (some x) (some t) at p s h = ground arith
step_later c i m e none (some t) at p s h = absurd p
step_later c i m e (some x) none at p s h = absurd p

step-never_panics :
    (c : PidConfig) (i m e : F64) (pm : Option F64) (t : Option ℕ) (at : ℕ)
    → Paired pm t
    → step_from c i pm t m e at ≢ err PidError.panicked
unfolding step_from Paired
step-never_panics c i m e pm t at p = ground arith

valid_limits :
    (c : PidConfig)
    → is_valid_config c ≡ true
    → (is_finite c.output_min ≡ true)
      × (is_finite c.output_max ≡ true)
      × (f64_le c.output_min c.output_max ≡ true)
unfolding is_valid_config
valid_limits c h = ground (arith, f64_le_total c.output_max c.output_min)

finite_parts :
    (error : F64) (u : PidUpdate)
    → all_finite error u ≡ true
    → (is_finite u.i ≡ true) × (is_finite u.unconstrained ≡ true) × (is_finite u.output ≡ true)
unfolding all_finite
finite_parts error u h = ground arith

calculated-Controlled :
    (x : Pid) (measurement setpoint error : F64) (at : ℕ) (s : Step)
    → is_valid_config x.config ≡ true
    → OnSome (λ t. t < at) x.state.last_at
    → all_finite error (calculate x.config x.state.integral error at s) ≡ true
    → (let u = calculate x.config x.state.integral error at s in
        Controlled x measurement setpoint at u (remember measurement u x))
unfolding calculate
calculated-Controlled x measurement setpoint error at s valid late fin =
    let u = calculate x.config x.state.integral error at s in
    let (lo, hi, order) = valid_limits x.config valid in
    let (fi, fu, fo) = finite_parts error u fin in
    let (above, below, f) =
      f64_clamp-in_range u.unconstrained x.config.output_min x.config.output_max fu lo hi order in
    record {
      within = (above, below);
      finite = f;
      integral_finite = fi;
      instant = refl;
      later = late;
      clamped = refl;
      remembered = refl;
    }

finish_update-Updating :
    (x : Pid) (measurement setpoint error : F64) (at : ℕ) (r : Result PidError Step)
    → is_valid_config x.config ≡ true
    → (r ≢ err PidError.panicked)
    → ((s : Step) → r ≡ ok s → OnSome (λ t. t < at) x.state.last_at)
    → Updating x measurement setpoint at (finish_update measurement error at r x)
unfolding Updating finish_update
finish_update-Updating x measurement setpoint error at (err e) valid safe late =
    (λ p. safe (ap err p), refl)
finish_update-Updating x measurement setpoint error at (ok s) valid safe late =
    elim (Bool-cases (all_finite error (calculate x.config x.state.integral error at s))) [
      | inl h ↦ rw h (calculated-Controlled x measurement setpoint error at s valid (late s refl) h)
      | inr h ↦ rw h (ground arith, refl)
    ]

pub update-Updating :
    (x : Pid) (measurement setpoint : F64) (at : ℕ)
    → is_valid_config x.config ≡ true
    → Paired x.state.previous_measurement x.state.last_at
    → Updating x measurement setpoint at (update measurement setpoint at x)
unfolding Updating update
update-Updating x measurement setpoint at valid p =
    elim (Bool-cases (not (is_finite measurement) || not (is_finite setpoint))) [
      | inl h ↦ rw h (ground arith, refl)
      | inr h ↦
          let error = f64_sub setpoint measurement in
          rw h (
            finish_update-Updating x measurement setpoint error at
              (step_from x.config x.state.integral x.state.previous_measurement x.state.last_at
                measurement error at)
              valid
              (step-never_panics x.config x.state.integral measurement error
                x.state.previous_measurement x.state.last_at at p)
              (step_later x.config x.state.integral measurement error x.state.previous_measurement
                x.state.last_at at p))
    ]

pub data PidCall : Type 0 where
  updated : F64 → F64 → ℕ → PidCall
  restarted : PidCall

unfoldable pub call : PidCall → Pid → Pid
call (PidCall.updated measurement setpoint at) x = (update measurement setpoint at x).1
call PidCall.restarted x = reset x

unfoldable pub calls : List PidCall → Pid → Pid
unfolding call
calls [] x = x
calls (c ∷ cs) x = calls cs (call c x)

updated-Sound :
    (c : PidConfig) (x : Pid) (measurement setpoint : F64) (at : ℕ)
    (r : Result PidError PidUpdate × Pid)
    → Sound c x
    → Updating x measurement setpoint at r
    → Sound c r.1
unfolding Updating remember Paired
updated-Sound c x measurement setpoint at (ok u, x') s told =
    subst (Sound c) (sym told.remembered)
      (record { config_kept = s.config_kept; integral_finite = told.integral_finite; paired = tt })
updated-Sound c x measurement setpoint at (err e, x') s told = subst (Sound c) (sym told.1) s

still_valid :
    (c : PidConfig) (x : Pid)
    → Sound c x
    → is_valid_config c ≡ true
    → is_valid_config x.config ≡ true
still_valid c x s valid = ap is_valid_config s.config_kept ∙ valid

call-Sound :
    (c : PidConfig) (k : PidCall) (x : Pid)
    → is_valid_config c ≡ true
    → Sound c x
    → Sound c (call k x)
unfolding call reset Paired is_finite
call-Sound c (PidCall.updated measurement setpoint at) x valid s =
    updated-Sound c x measurement setpoint at (update measurement setpoint at x) s
      (update-Updating x measurement setpoint at (still_valid c x s valid) s.paired)
call-Sound c PidCall.restarted x valid s = record {
  config_kept = s.config_kept;
  integral_finite = refl;
  paired = tt;
}

calls-Sound :
    (c : PidConfig) (ks : List PidCall) (x : Pid)
    → is_valid_config c ≡ true
    → Sound c x
    → Sound c (calls ks x)
unfolding calls
calls-Sound c [] x valid s = s
calls-Sound c (k ∷ ks) x valid s = calls-Sound c ks (call k x) valid (call-Sound c k x valid s)

pub new-Sound :
    (c : PidConfig) (first : Pid) → new c ≡ ok first → Sound c first × (is_valid_config c ≡ true)
unfolding new Paired is_finite
new-Sound c first h = ground arith

-- Whatever calls a PID has had, an update never panics; an error leaves it as it was; an output that
-- it tells is the sum of the contributions clamped to the configured limits, a finite number within
-- them, of a later time than the one before, and is remembered with its integral.
pub outputs_within_limits :
    (c : PidConfig) (first : Pid) (ks : List PidCall) (measurement setpoint : F64) (at : ℕ)
    → new c ≡ ok first
    → Updating
        (calls ks first)
        measurement
        setpoint
        at
        (update measurement setpoint at (calls ks first))
outputs_within_limits c first ks measurement setpoint at made =
    let (s, valid) = new-Sound c first made in
    let t = calls-Sound c ks first valid s in
    update-Updating (calls ks first) measurement setpoint at
      (still_valid c (calls ks first) t valid) t.paired
