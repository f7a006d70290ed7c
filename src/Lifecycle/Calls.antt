-- ===== src/Lifecycle/Calls.antt =====
-- crates/lab-core/src/runtime/controllers.rs: any operations of one controller, mixed with what others
-- do to the authority of its output, to its reference and to the buffer of its input.
use lab_runtime.Base.{
  ℕ, ◌≡◌, refl, sym, ap, ◌∙◌, Bool, false, List, [], ◌∷◌, F64, Result, ok, guard, check_keeps,
  check_known, guard_passed, is_some,
}
use lab_runtime.Model.{EngineeringUnit, Error, ControllerError, ValueSpec}
use lab_runtime.Output.Types.{ActuatorId}
use lab_runtime.Output.Authority
use lab_runtime.Output.Authority.{OutputAuthority}
use lab_runtime.Output.Commands.{Op, step}
use lab_runtime.Output.Invariant.Core.{new-Inv}
use lab_runtime.Output.Invariant.Runs.{step-Inv}
use lab_runtime.Output.Frame.Runs.{step-Frame}
use lab_runtime.Reference.Trajectory
use lab_runtime.Reference.Trajectory.{ReferenceCall}
use lab_runtime.Signals.Window
use lab_runtime.Signals.Window.{SignalCall}
use lab_runtime.Control.Pid.{PidConfig}
use lab_runtime.Control.Native.{NativeControllerConfig, ControllerState, new_controller}
use lab_runtime.Lifecycle.Loop.{Loop, check_output_time}
use lab_runtime.Lifecycle.Proposing.{Ticked, tick_controller-Ticked}
use lab_runtime.Lifecycle.Stopping.{Executor, pause_controller, reset_failed_controller}
use lab_runtime.Lifecycle.Starting.{
  same_state, is_seen, prepare_controller, start_or_resume_controller,
}
use lab_runtime.Lifecycle.Ticking.{Surroundings, tick_controller}
use lab_runtime.Lifecycle.Configuring.{configure_controller_pid, reconfigure_controller}
use lab_runtime.Lifecycle.Sound.{Sound, is_running, moved-Sound, check_output_time-Sound}
use lab_runtime.Lifecycle.Preserving.{
  idle-Sound, pause_controller-Sound, reset_failed_controller-Sound, lease_of_stopped,
}
use lab_runtime.Lifecycle.Entering.{start_or_resume_controller-Sound, same_state_running}
use lab_runtime.Lifecycle.Running.{
  tick_controller-Sound, configure_controller_pid-Sound, reconfigure_controller-Sound,
  new_controller_idle,
}

pub data LoopCall : Type 0 where
  prepares : Result Error (Unit {0}) → LoopCall
  starts resumes : (F64 → F64) → ℕ → Bool → LoopCall
  ticks : Surroundings → ℕ → LoopCall
  pauses : ℕ → Executor → LoopCall
  resets : ℕ → Bool → LoopCall
  configures : PidConfig → ℕ → Bool → LoopCall
  reconfigures : NativeControllerConfig → ℕ → Bool → Result Error (Unit {0}) → LoopCall
  others_do : Op → LoopCall
  observes : SignalCall → LoopCall
  directs : ReferenceCall → LoopCall

unfoldable pub call : LoopCall → Loop → Loop
call (LoopCall.prepares valid) l = (prepare_controller valid l).1
call (LoopCall.starts exp_m1 at warm) l =
    (start_or_resume_controller exp_m1 at ControllerState.ready warm l).1
call (LoopCall.resumes exp_m1 at warm) l =
    (start_or_resume_controller exp_m1 at ControllerState.paused warm l).1
call (LoopCall.ticks s at) l = (tick_controller s at l).1
call (LoopCall.pauses at x) l = (pause_controller at x l).1
call (LoopCall.resets at warm) l = (reset_failed_controller at warm l).1
call (LoopCall.configures k expected warm) l = (configure_controller_pid k expected warm l).1
call (LoopCall.reconfigures k expected warm valid) l =
    (reconfigure_controller k expected warm valid l).1
call (LoopCall.others_do o) l = record l { authority = step l.authority o }
call (LoopCall.observes c) l = record l { samples = (Window.call c l.samples).1 }
call (LoopCall.directs c) l = record l { reference = Trajectory.call c l.reference }

unfoldable pub calls : List LoopCall → Loop → Loop
unfolding call
calls [] l = l
calls (c ∷ cs) l = calls cs (call c l)

prepare_controller-Sound :
    (valid : Result Error (Unit {0})) (l : Loop) → Sound l → Sound (prepare_controller valid l).1
unfolding prepare_controller is_running
prepare_controller-Sound valid l s =
    check_known Sound
      (guard (same_state l.control.state ControllerState.created)
        (Error.controller ControllerError.invalid_controller_state))
      l _ s
      λ u e. check_keeps Sound valid l _ s λ _.
        idle-Sound l _ s
          (lease_of_stopped l s (
            same_state_running l.control.state ControllerState.created (guard_passed _ _ u e) refl))
          refl s.pid_good

call-Sound : (c : LoopCall) (l : Loop) → Sound l → Sound (call c l)
unfolding call is_running
call-Sound (LoopCall.prepares valid) l s = prepare_controller-Sound valid l s
call-Sound (LoopCall.starts exp_m1 at warm) l s =
    start_or_resume_controller-Sound exp_m1 at ControllerState.ready warm l refl s
call-Sound (LoopCall.resumes exp_m1 at warm) l s =
    start_or_resume_controller-Sound exp_m1 at ControllerState.paused warm l refl s
call-Sound (LoopCall.ticks t at) l s = tick_controller-Sound t at l s
call-Sound (LoopCall.pauses at x) l s = pause_controller-Sound at x l s
call-Sound (LoopCall.resets at warm) l s = reset_failed_controller-Sound at warm l s
call-Sound (LoopCall.configures k expected warm) l s =
    configure_controller_pid-Sound k expected warm l s
call-Sound (LoopCall.reconfigures k expected warm valid) l s =
    reconfigure_controller-Sound k expected warm valid l s
call-Sound (LoopCall.others_do o) l s =
    moved-Sound l (step l.authority o) s (step-Inv l.authority o s.authority_inv)
      (step-Frame l.authority o s.authority_inv)
call-Sound (LoopCall.observes c) l s = record {
  authority_inv = s.authority_inv;
  lease_running = s.lease_running;
  lease_past = s.lease_past;
  pid_good = s.pid_good;
}
call-Sound (LoopCall.directs c) l s = record {
  authority_inv = s.authority_inv;
  lease_running = s.lease_running;
  lease_past = s.lease_past;
  pid_good = s.pid_good;
}

calls-Sound : (cs : List LoopCall) (l : Loop) → Sound l → Sound (calls cs l)
unfolding calls
calls-Sound [] l s = s
calls-Sound (c ∷ cs) l s = calls-Sound cs (call c l) (call-Sound c l s)

-- A loop of a new controller over a new authority.
pub record Fresh (l : Loop) : Type 0 where
  pub config : NativeControllerConfig
  pub made : new_controller config ≡ ok l.control
  pub actuator : ActuatorId
  pub limits : ValueSpec
  pub unit : EngineeringUnit
  pub counter : ℕ
  pub registered : (Authority.new actuator limits unit counter).0 ≡ ok l.authority

fresh-Sound : (l : Loop) → Fresh l → Sound l
fresh-Sound l f =
    let (empty, stopped, good) = new_controller_idle f.config l.control f.made in
    record {
      authority_inv = new-Inv f.actuator f.limits f.unit f.counter l.authority f.registered;
      lease_running = ap is_some empty ∙ sym stopped;
      lease_past = rw empty tt;
      pid_good = good;
    }

-- After any operations of a controller, mixed with any of other clients, its reference and its input:
-- the controller holds a lease exactly while it runs, never one of a future epoch, its algorithm's
-- memory is well-formed, and so is the authority of its output.
pub lease_while_running : (l : Loop) (cs : List LoopCall) → Fresh l → Sound (calls cs l)
lease_while_running l cs f = calls-Sound cs l (fresh-Sound l f)

-- After any operations of a controller, mixed with any of other clients, its reference and its input,
-- let a tick of the running controller pass its checks of time and state.
-- It either fails the controller without a proposal, or first gives the authority, which it has not
-- touched since the watchdog, a proposal once its attempt has a number: of a finite output within the limits of the algorithm,
-- under a live lease that is the controller's own and the authority's, from a finite input that is
-- not too old, for a lifetime that ends with the policy's, the lease's and the freshness of the
-- input.
pub proposals_bounded :
    (l : Loop) (cs : List LoopCall)
    → Fresh l
    → (s : Surroundings) (at : ℕ)
    → let m = (check_output_time at (calls cs l)).1 in
      (check_output_time at (calls cs l)).0 ≡ ok tt
      → m.control.state ≡ ControllerState.running
      → is_seen at m.control.last_tick ≡ false
      → Ticked s at m (tick_controller s at (calls cs l))
proposals_bounded l cs f s at timely running unseen =
    let sound = check_output_time-Sound at (calls cs l) (lease_while_running l cs f) in
    tick_controller-Ticked s at (calls cs l) sound timely running unseen
