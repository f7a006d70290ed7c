-- ===== src/Lifecycle/Stopping.antt =====
-- crates/lab-core/src/runtime/controllers.rs: how a controller gives its output up: `fail_controller`,
-- `pause_controller` and `reset_failed_controller`. What the executor of the output does to the
-- authority after a command is a list of the authority's own operations with a result.
use lab_runtime.Base.{
  ℕ, Bool, true, false, ◌&&◌, ◌||◌, not, if◌then◌else◌, Option, none, some, is_none, List, Result,
  ok, err, guard, ◌>>=◌, ◌>>◌, check, modify,
}
use lab_runtime.Model.{Error, ControllerError}
use lab_runtime.Output.Types.{OutputLease, OutputState, is_lease}
use lab_runtime.Output.Authority.{OutputAuthority}
use lab_runtime.Output.Queries.{can_prepare}
use lab_runtime.Output.Commands.{OutputCommand, Op, command, run}
use lab_runtime.Control.Native.{NativeController, ControllerState, reset_algorithms}
use lab_runtime.Lifecycle.Loop.{Method, on_authority, set_control, check_output_time}

pub record Executor : Type 0 where
  pub operations : List Op
  pub result : Result Error (Unit {0})

-- Of a simulated output: `complete_simulated_safe`. Of a physical output: nothing yet.
unfoldable pub execute : Executor → Method (Unit {0})
execute x l = (x.result, record l { authority = run l.authority x.operations })

unfoldable pub is_safe_pending : OutputState → Bool
is_safe_pending OutputState.safe_pending = true
is_safe_pending _ = false

unfoldable pub stop_with : ControllerState → NativeController → NativeController
stop_with s c = record c { state = s; lease = none }

-- The authority that the controller may act on once it stops: the owner of `lease`, or of none with
-- the safe request that the watchdog left.
unfoldable pub holds : Option OutputLease → OutputAuthority → Bool
holds none a = false
holds (some lease) a = is_lease a.snapshot.lease lease

unfoldable pub left_by_watchdog : OutputAuthority → Bool
unfolding is_safe_pending
left_by_watchdog a = is_none a.snapshot.lease && is_safe_pending a.snapshot.state

unfoldable pub trip_and_settle : ℕ → Executor → Method (Unit {0})
trip_and_settle at x = do _ ← on_authority (command OutputCommand.trip at); execute x

unfoldable pub fail_controller : ℕ → Executor → Method (Unit {0})
fail_controller at x l =
    let stopped = set_control (stop_with ControllerState.failed) l in
    if holds l.control.lease l.authority || left_by_watchdog l.authority
    then trip_and_settle at x stopped
    else (ok tt, stopped)

unfoldable pub release_and_settle : OutputLease → ℕ → Executor → Method (Unit {0})
release_and_settle lease at x l =
    if is_lease l.authority.snapshot.lease lease
    then (do _ ← on_authority (command (OutputCommand.release lease) at); execute x) l
    else if left_by_watchdog l.authority
    then (do _ ← on_authority (command OutputCommand.request_safe_output at); execute x) l
    else (ok tt, l)

unfoldable pub pause_running : ℕ → Executor → Option OutputLease → Method (Unit {0})
pause_running at x none l = (err (Error.controller ControllerError.invalid_controller_state), l)
pause_running at x (some lease) l =
    release_and_settle lease at x (set_control (stop_with ControllerState.paused) l)

unfoldable pub pause_in : ControllerState → ℕ → Executor → Method (Unit {0})
pause_in ControllerState.warming at x l =
    (ok tt, set_control (λ c. record c { state = ControllerState.paused }) l)
pause_in ControllerState.running at x l = pause_running at x l.control.lease l
pause_in _ at x l = (err (Error.controller ControllerError.invalid_controller_state), l)

unfoldable pub pause_controller : ℕ → Executor → Method (Unit {0})
pause_controller at x = do check_output_time at; λ l. pause_in l.control.state at x l

unfoldable pub is_failed : ControllerState → Bool
is_failed ControllerState.failed = true
is_failed _ = false

unfoldable pub restore : NativeController → NativeController
restore c = record (reset_algorithms c) { last_tick = none; state = ControllerState.paused }

-- `others_warm`: another controller prepares for the same output.
unfoldable pub reset_failed_controller : ℕ → Bool → Method (Unit {0})
unfolding is_failed restore
reset_failed_controller at others_warm = do
  check_output_time at
  check (λ l.
      guard (is_failed l.control.state && is_none l.control.lease)
        (Error.controller ControllerError.invalid_controller_state))
  check (λ l.
      guard (not others_warm && can_prepare l.authority)
        (Error.controller ControllerError.output_rejected))
  modify (set_control restore)
