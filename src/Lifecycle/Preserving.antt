-- ===== src/Lifecycle/Preserving.antt =====
-- crates/lab-core/src/runtime/controllers.rs: every operation of the lifecycle keeps the loop sound.
use lab_runtime.Base.{
  ℕ, ◌≡◌, inl, inr, refl, sym, ap, ◌∙◌, Bool, false, ◌&&◌, ◌||◌, not, Option, none, some, is_some,
  is_none, guard, arith, Bool-cases, run_on_keeps, check_keeps,
}
use lab_runtime.Model.{Error, ControllerError}
use lab_runtime.Output.Types.{OutputLease, is_lease}
use lab_runtime.Output.Queries.{can_prepare}
use lab_runtime.Output.Commands.{OutputCommand, command}
use lab_runtime.Control.Pid
use lab_runtime.Control.Pid.{Pid, PidConfig, is_valid_config}
use lab_runtime.Control.Limits.{Paired}
use lab_runtime.Control.Native.{NativeController, ControllerState, reset_algorithms}
use lab_runtime.Lifecycle.Loop.{Loop, on_authority, set_control, check_output_time}
use lab_runtime.Lifecycle.Stopping.{
  Executor, execute, stop_with, holds, left_by_watchdog, trip_and_settle, fail_controller,
  release_and_settle, pause_running, pause_in, pause_controller, is_failed, restore,
  reset_failed_controller,
}
use lab_runtime.Lifecycle.Sound.{
  Sound, GoodPid, is_running, command-Sound, execute-Sound, check_output_time-Sound,
}

-- A controller without a lease that does not run.
pub idle-Sound :
    (l : Loop) (c : NativeController)
    → Sound l
    → c.lease ≡ none
    → is_running c.state ≡ false
    → GoodPid c.pid
    → Sound (record l { control = c })
idle-Sound l c s empty stopped good = record {
  authority_inv = s.authority_inv;
  lease_running = ap is_some empty ∙ sym stopped;
  lease_past = rw empty tt;
  pid_good = good;
}

pub reset-GoodPid : (x : Pid) → GoodPid x → GoodPid (Pid.reset x)
unfolding Pid.reset Paired
reset-GoodPid x g = record { valid = g.valid; paired = tt }

failed-Sound : (at : ℕ) (x : Executor) (l : Loop) → Sound l → Sound (trip_and_settle at x l).1
unfolding trip_and_settle
failed-Sound at x l s =
    run_on_keeps Sound (on_authority (command OutputCommand.trip at) l) (λ _. execute x)
      (command-Sound OutputCommand.trip at l s) (λ _ m k. execute-Sound x m k)

pub fail_controller-Sound :
    (at : ℕ) (x : Executor) (l : Loop) → Sound l → Sound (fail_controller at x l).1
unfolding fail_controller stop_with is_running
fail_controller-Sound at x l s =
    let stopped = set_control (stop_with ControllerState.failed) l in
    let t : Sound stopped = idle-Sound l stopped.control s refl refl s.pid_good in
    elim (Bool-cases (holds l.control.lease l.authority || left_by_watchdog l.authority)) [
      | inl e ↦ rw e (failed-Sound at x stopped t)
      | inr e ↦ rw e t
    ]

release_and_settle-Sound :
    (lease : OutputLease) (at : ℕ) (x : Executor) (l : Loop)
    → Sound l
    → Sound (release_and_settle lease at x l).1
unfolding release_and_settle
release_and_settle-Sound lease at x l s =
    elim (Bool-cases (is_lease l.authority.snapshot.lease lease)) [
      | inl e ↦ rw e (
          run_on_keeps Sound (on_authority (command (OutputCommand.release lease) at) l)
            (λ _. execute x) (command-Sound (OutputCommand.release lease) at l s)
            (λ _ m k. execute-Sound x m k))
      | inr e ↦ elim (Bool-cases (left_by_watchdog l.authority)) [
        | inl f ↦
            rw (e, f)
              (run_on_keeps Sound (on_authority (command OutputCommand.request_safe_output at) l)
                (λ _. execute x) (command-Sound OutputCommand.request_safe_output at l s)
                (λ _ m k. execute-Sound x m k))
        | inr f ↦ rw (e, f) s
      ]
    ]

pause_running-Sound :
    (at : ℕ) (x : Executor) (o : Option OutputLease) (l : Loop)
    → Sound l
    → Sound (pause_running at x o l).1
unfolding pause_running stop_with is_running
pause_running-Sound at x none l s = s
pause_running-Sound at x (some lease) l s =
    release_and_settle-Sound lease at x _
      (idle-Sound l (stop_with ControllerState.paused l.control) s refl refl s.pid_good)

pub lease_of_stopped :
    (l : Loop) → Sound l → is_running l.control.state ≡ false → l.control.lease ≡ none
lease_of_stopped l s stopped = ground (arith, s.lease_running, stopped)

pause_in-Sound :
    (st : ControllerState) (at : ℕ) (x : Executor) (l : Loop)
    → st ≡ l.control.state
    → Sound l
    → Sound (pause_in st at x l).1
unfolding pause_in is_running
pause_in-Sound ControllerState.warming at x l e s =
    idle-Sound l _ s (lease_of_stopped l s (sym (ap is_running e))) refl s.pid_good
pause_in-Sound ControllerState.running at x l e s = pause_running-Sound at x l.control.lease l s
pause_in-Sound ControllerState.created at x l e s = s
pause_in-Sound ControllerState.ready at x l e s = s
pause_in-Sound ControllerState.paused at x l e s = s
pause_in-Sound ControllerState.failed at x l e s = s

pub pause_controller-Sound :
    (at : ℕ) (x : Executor) (l : Loop) → Sound l → Sound (pause_controller at x l).1
unfolding pause_controller
pause_controller-Sound at x l s =
    run_on_keeps Sound (check_output_time at l) _ (check_output_time-Sound at l s)
      λ _ m k. pause_in-Sound m.control.state at x m refl k

pub reset_failed_controller-Sound :
    (at : ℕ) (others_warm : Bool) (l : Loop)
    → Sound l
    → Sound (reset_failed_controller at others_warm l).1
unfolding reset_failed_controller restore reset_algorithms is_running
reset_failed_controller-Sound at others_warm l s =
    run_on_keeps Sound (check_output_time at l) _ (check_output_time-Sound at l s) λ _ m k.
      elim (Bool-cases (is_failed m.control.state && is_none m.control.lease)) [
        | inl e ↦
            let empty : m.control.lease ≡ none = ground (arith, e) in
            rw e (
              check_keeps Sound
                (guard (not others_warm && can_prepare m.authority)
                  (Error.controller ControllerError.output_rejected))
                m _ k λ _. idle-Sound m _ k empty refl (reset-GoodPid m.control.pid k.pid_good))
        | inr e ↦ rw e k
      ]
