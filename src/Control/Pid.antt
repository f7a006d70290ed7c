-- ===== src/Control/Pid.antt =====
-- crates/lab-core/src/control.rs: PidConfig, PidUpdate, PidSnapshot and the methods of Pid. The error
-- `panicked` is not the source's: it stands for its `unreachable!`.
use lab_runtime.Base.{
  ℕ, ◌-◌, Bool, ◌&&◌, ◌||◌, not, ltb, if◌then◌else◌, Option, none, some, F64, is_finite, f64_add,
  f64_sub, f64_mul, f64_div, f64_neg, f64_lt, f64_le, f64_clamp, f64_zero, as_secs, Result, ok, err,
  Act,
}

pub data PidError : Type 0 where
  invalid_configuration non_finite invalid_time panicked : PidError

pub record PidConfig : Type 0 where
  pub kp : F64
  pub ki : F64
  pub kd : F64
  pub output_min : F64
  pub output_max : F64

pub record PidUpdate : Type 0 where
  pub p : F64
  pub i : F64
  pub d : F64
  pub unconstrained : F64
  pub output : F64
  pub at : ℕ

pub record PidSnapshot : Type 0 where
  pub integral : F64
  pub previous_measurement : Option F64
  pub last_at : Option ℕ
  pub latest : Option PidUpdate

pub record Pid : Type 0 where
  pub config : PidConfig
  pub state : PidSnapshot

abbrev pub empty_memory : PidSnapshot
empty_memory = record {
  integral = f64_zero;
  previous_measurement = none;
  last_at = none;
  latest = none;
}

unfoldable pub is_valid_config : PidConfig → Bool
is_valid_config c =
    is_finite c.kp
    && is_finite c.ki
    && is_finite c.kd
    && is_finite c.output_min
    && is_finite c.output_max
    && not (f64_le c.output_max c.output_min)

unfoldable pub new : PidConfig → Result PidError Pid
new c =
    if is_valid_config c
    then ok (record { config = c; state = empty_memory })
    else err PidError.invalid_configuration

-- The integral with this step added, and the derivative contribution.
pub record Step : Type 0 where
  pub candidate_integral : F64
  pub derivative : F64

unfoldable pub step_from :
    PidConfig → F64 → Option F64 → Option ℕ → F64 → F64 → ℕ → Result PidError Step
step_from c integral none none measurement error at =
    ok (record { candidate_integral = integral; derivative = f64_zero })
step_from c integral (some m) (some t) measurement error at =
    let dt = as_secs (at - t) in
    if ltb t at
    then ok (record {
      candidate_integral = f64_add integral (f64_mul (f64_mul c.ki error) dt);
      derivative = f64_div (f64_mul (f64_neg c.kd) (f64_sub measurement m)) dt;
    })
    else err PidError.invalid_time
step_from c integral none (some t) measurement error at = err PidError.panicked
step_from c integral (some m) none measurement error at = err PidError.panicked

unfoldable pub pushes_upper : PidConfig → F64 → F64 → Bool
pushes_upper c unconstrained error = f64_lt c.output_max unconstrained && f64_lt f64_zero error

unfoldable pub pushes_lower : PidConfig → F64 → F64 → Bool
pushes_lower c unconstrained error = f64_lt unconstrained c.output_min && f64_lt error f64_zero

-- The integral after conditional anti-windup.
unfoldable pub chosen_integral : PidConfig → F64 → F64 → F64 → Step → F64
chosen_integral c integral p error s =
    let unconstrained = f64_add (f64_add p s.candidate_integral) s.derivative in
    if pushes_upper c unconstrained error || pushes_lower c unconstrained error
    then integral
    else s.candidate_integral

unfoldable pub calculate : PidConfig → F64 → F64 → ℕ → Step → PidUpdate
calculate c integral error at s = record {
  p = f64_mul c.kp error;
  i = chosen_integral c integral (f64_mul c.kp error) error s;
  d = s.derivative;
  unconstrained = total;
  output = f64_clamp total c.output_min c.output_max;
  at = at;
}
  where
    total : F64
    total =
        f64_add
          (f64_add (f64_mul c.kp error) (chosen_integral c integral (f64_mul c.kp error) error s))
          s.derivative

unfoldable pub all_finite : F64 → PidUpdate → Bool
all_finite error u =
    is_finite error
    && is_finite u.p
    && is_finite u.i
    && is_finite u.d
    && is_finite u.unconstrained
    && is_finite u.output

unfoldable pub remember : F64 → PidUpdate → Pid → Pid
remember measurement u x = record x {
  state = record {
    integral = u.i;
    previous_measurement = some measurement;
    last_at = some u.at;
    latest = some u;
  };
}

unfoldable pub finish_update : F64 → F64 → ℕ → Result PidError Step → Act Pid PidError PidUpdate
finish_update measurement error at (err e) x = (err e, x)
finish_update measurement error at (ok s) x =
    let u = calculate x.config x.state.integral error at s in
    if not (all_finite error u)
    then (err PidError.non_finite, x)
    else (ok u, remember measurement u x)

unfoldable pub update : F64 → F64 → ℕ → Act Pid PidError PidUpdate
update measurement setpoint at x =
    if not (is_finite measurement) || not (is_finite setpoint)
    then (err PidError.non_finite, x)
    else let error = f64_sub setpoint measurement in
      finish_update measurement error at
        (step_from x.config x.state.integral x.state.previous_measurement x.state.last_at
          measurement error at)
        x

unfoldable pub snapshot : Pid → PidSnapshot
snapshot x = x.state

unfoldable pub reset : Pid → Pid
reset x = record x { state = empty_memory }
