-- ===== src/Lifecycle/Configuring.antt =====
-- crates/lab-core/src/runtime/controllers.rs: `configure_controller_pid` and `reconfigure_controller`.
use lab_runtime.Base.{
  ℕ, Bool, true, false, ◌&&◌, not, ◌==◌, u64_eq, none, is_none, Result, guard, ok_or, checked_add,
  ◌>>=◌, ◌>>◌, check, modify,
}
use lab_runtime.Model.{Error, ControllerError}
use lab_runtime.Output.Types.{actuator_eq}
use lab_runtime.Output.Queries.{accepts_pid_limits}
use lab_runtime.Signals.Sample.{signal_is}
use lab_runtime.Control.Pid
use lab_runtime.Control.Pid.{Pid, PidConfig}
use lab_runtime.Control.Native.{
  NativeController, NativeControllerConfig, ControllerState, new_controller, replace_error,
  reset_algorithms,
}
use lab_runtime.Lifecycle.Loop.{Method, set_control}
use lab_runtime.Lifecycle.Starting.{into_error}

unfoldable pub is_stopped : ControllerState → Bool
is_stopped ControllerState.ready = true
is_stopped ControllerState.paused = true
is_stopped _ = false

-- The stopped state in which a configuration may change.
unfoldable pub may_change : Bool → NativeController → Bool
unfolding is_stopped
may_change others_warm c = is_stopped c.state && is_none c.lease && not others_warm

unfoldable pub install_pid : Pid → PidConfig → ℕ → NativeController → NativeController
install_pid p k next c =
    record (reset_algorithms (record c { pid = p; config = record (c.config) { pid = k } })) {
      last_tick = none;
      config_revision = next;
    }

-- `others_warm`: a controller prepares for the same output.
unfoldable pub configure_controller_pid : PidConfig → ℕ → Bool → Method (Unit {0})
unfolding may_change install_pid
configure_controller_pid k expected others_warm = do
  check (λ l.
      guard (l.control.config_revision == expected)
        (Error.controller ControllerError.controller_revision_conflict))
  check (λ l.
      guard (may_change others_warm l.control)
        (Error.controller ControllerError.invalid_controller_state))
  next ← check (λ l.
      ok_or (checked_add l.control.config_revision 1)
        (Error.controller ControllerError.controller_revision_exhausted))
  p ← check (λ l.
      replace_error (Error.controller ControllerError.invalid_controller_configuration) (Pid.new k))
  check (λ l.
      guard (accepts_pid_limits k.output_min k.output_max l.authority)
        (Error.controller ControllerError.output_rejected))
  modify (set_control (install_pid p k next))

unfoldable pub same_bindings : NativeControllerConfig → NativeControllerConfig → Bool
same_bindings new old =
    new.id == old.id
    && signal_is new.input old.input
    && actuator_eq new.output old.output
    && new.reference == old.reference

unfoldable pub install_controller : NativeController → ℕ → NativeController → NativeController
install_controller candidate next old = record candidate {
  state = old.state;
  config_revision = next;
}

-- The validation of the candidate's descriptors is an argument.
unfoldable pub reconfigure_controller :
    NativeControllerConfig → ℕ → Bool → Result Error (Unit {0}) → Method (Unit {0})
unfolding same_bindings may_change install_controller
reconfigure_controller k expected others_warm valid = do
  check (λ l.
      guard (l.control.config_revision == expected)
        (Error.controller ControllerError.controller_revision_conflict))
  check (λ l.
      guard (same_bindings k l.control.config && may_change others_warm l.control)
        (Error.controller ControllerError.invalid_controller_state))
  next ← check (λ l.
      ok_or (checked_add l.control.config_revision 1)
        (Error.controller ControllerError.controller_revision_exhausted))
  candidate ← check (λ l. into_error (new_controller k))
  check (λ l. valid)
  modify (set_control (install_controller candidate next))
