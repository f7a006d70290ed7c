-- ===== src/Control/Native.antt =====
-- crates/lab-core/src/control.rs: NativeController, the filter, the algorithm and the lifecycle state
-- of one control loop.
use lab_runtime.Base.{ℕ, ◌||◌, ◌==◌, u64_eq, if◌then◌else◌, Option, none, Result, ok, err, and_then}
use lab_runtime.Model.{ControllerError}
use lab_runtime.Output.Types.{ActuatorId, OutputLease}
use lab_runtime.Signals.Sample.{SignalId}
use lab_runtime.Processing.Ema
use lab_runtime.Processing.Ema.{Ema, EmaConfig, EmaSnapshot}
use lab_runtime.Control.Pid
use lab_runtime.Control.Pid.{Pid, PidConfig, PidSnapshot, PidUpdate}

pub data ControllerState : Type 0 where
  created ready warming running paused failed : ControllerState

-- A ControllerId and a ReferenceId are their u64.
pub record NativeControllerConfig : Type 0 where
  pub id : ℕ
  pub input : SignalId
  pub output : ActuatorId
  pub reference : ℕ
  pub ema : EmaConfig
  pub pid : PidConfig
  pub max_input_age : ℕ
  pub max_tick_gap : ℕ
  pub lease_lifetime : ℕ
  pub proposal_ttl : ℕ

pub record NativeController : Type 0 where
  pub config : NativeControllerConfig
  pub state : ControllerState
  pub ema : Ema
  pub pid : Pid
  pub lease : Option OutputLease
  pub last_tick : Option ℕ
  pub latest_output : Option PidUpdate
  pub config_revision : ℕ

-- `map_err(|_| ControllerError::...)`.
abbrev pub replace_error : {E F A : Type 0} → F → Result E A → Result F A
replace_error f (ok a) = ok a
replace_error f (err e) = err f

unfoldable pub new_controller : NativeControllerConfig → Result ControllerError NativeController
new_controller c =
    if c.max_input_age == 0 || c.max_tick_gap == 0 || c.lease_lifetime == 0 || c.proposal_ttl == 0
    then err ControllerError.invalid_controller_configuration
    else and_then (replace_error ControllerError.invalid_controller_configuration (Ema.new c.ema))
        λ e.
          and_then (replace_error ControllerError.invalid_controller_configuration (Pid.new c.pid))
            λ p. ok (record {
              config = c;
              state = ControllerState.created;
              ema = e;
              pid = p;
              lease = none;
              last_tick = none;
              latest_output = none;
              config_revision = 1;
            })

unfoldable pub reset_algorithms : NativeController → NativeController
reset_algorithms c = record c { ema = Ema.reset c.ema; pid = Pid.reset c.pid; latest_output = none }
