-- ===== src/Lifecycle/Sound.antt =====
-- crates/lab-core/src/runtime/controllers.rs: a loop holds a lease exactly while it runs, and its
-- authority and its algorithm are well-formed.
use lab_runtime.Base.{
  ℕ, ◌≤◌, ◌≡◌, inl, inr, Bool, true, false, Option, none, some, is_some, arith, Bool-cases, OnSome,
  ltb,
}
use lab_runtime.Output.Types.{OutputLease}
use lab_runtime.Output.Authority.{OutputAuthority}
use lab_runtime.Output.Commands.{OutputCommand, Op, command, run, watchdog, step}
use lab_runtime.Output.Invariant.{Inv}
use lab_runtime.Output.Invariant.Core.{watchdog-Inv}
use lab_runtime.Output.Invariant.Runs.{run-Inv, command-Inv}
use lab_runtime.Output.Frame.{Frame}
use lab_runtime.Output.Frame.Runs.{run-Frame, step-Frame}
use lab_runtime.Control.Pid.{Pid, is_valid_config}
use lab_runtime.Control.Limits.{Paired}
use lab_runtime.Control.Native.{ControllerState}
use lab_runtime.Lifecycle.Loop.{Loop, on_authority, check_output_time}
use lab_runtime.Lifecycle.Stopping.{Executor, execute}

unfoldable pub is_running : ControllerState → Bool
is_running ControllerState.running = true
is_running _ = false

pub record GoodPid (x : Pid) : Type 0 where
  pub valid : is_valid_config x.config ≡ true
  pub paired : Paired x.state.previous_measurement x.state.last_at

pub record Sound (l : Loop) : Type 0 where
  pub authority_inv : Inv l.authority
  pub lease_running : is_some l.control.lease ≡ is_running l.control.state
  pub lease_past :
      OnSome (λ (m : OutputLease). m.epoch ≤ l.authority.snapshot.epoch) l.control.lease
  pub pid_good : GoodPid l.control.pid

lease_past_later :
    (o : Option OutputLease) (m n : ℕ)
    → m ≤ n
    → OnSome (λ (k : OutputLease). k.epoch ≤ m) o
    → OnSome (λ (k : OutputLease). k.epoch ≤ n) o
lease_past_later none m n h p = tt
lease_past_later (some k) m n h p = omega (arith, h, p)

-- The authority moves on under a loop that keeps its controller.
pub moved-Sound :
    (l : Loop) (a : OutputAuthority)
    → Sound l
    → Inv a
    → Frame l.authority a
    → Sound (record l { authority = a })
moved-Sound l a s inv frame = record {
  authority_inv = inv;
  lease_running = s.lease_running;
  lease_past =
      lease_past_later l.control.lease l.authority.snapshot.epoch a.snapshot.epoch frame.epoch_le
        s.lease_past;
  pid_good = s.pid_good;
}

pub command-Sound :
    (c : OutputCommand) (at : ℕ) (l : Loop) → Sound l → Sound (on_authority (command c at) l).1
unfolding step
command-Sound c at l s =
    moved-Sound l (command c at l.authority).1 s (command-Inv c at l.authority s.authority_inv)
      (step-Frame l.authority (Op.commands c at) s.authority_inv)

pub check_output_time-Sound : (at : ℕ) (l : Loop) → Sound l → Sound (check_output_time at l).1
unfolding check_output_time step
check_output_time-Sound at l s = elim (Bool-cases (ltb at l.output_time)) [
  | inl e ↦ rw e s
  | inr e ↦ rw e (
      moved-Sound (record l { output_time = at }) (watchdog at l.authority).1 (at_time s)
        (watchdog-Inv at l.authority s.authority_inv)
        (step-Frame l.authority (Op.ticks at) s.authority_inv))
]
  where
    at_time : Sound l → Sound (record l { output_time = at })
    at_time s = record {
      authority_inv = s.authority_inv;
      lease_running = s.lease_running;
      lease_past = s.lease_past;
      pid_good = s.pid_good;
    }

pub execute-Sound : (x : Executor) (l : Loop) → Sound l → Sound (execute x l).1
unfolding execute
execute-Sound x l s =
    moved-Sound l (run l.authority x.operations) s
      (run-Inv x.operations l.authority s.authority_inv)
      (run-Frame x.operations l.authority s.authority_inv)
