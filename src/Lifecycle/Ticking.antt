-- ===== src/Lifecycle/Ticking.antt =====
-- crates/lab-core/src/runtime/controllers.rs: `tick_controller`, with the delivery of its proposal:
-- `deliver_physical` and `deliver_simulated` propose, and their executor goes on with the authority.
use lab_runtime.Base.{
  ℕ, Bool, true, false, not, if◌then◌else◌, Option, none, some, F64, Result, ok, err, guard, ◌>>=◌,
  ◌>>◌, check,
}
use lab_runtime.Model.{EngineeringUnit, Error, ControllerError, Value}
use lab_runtime.Output.Types.{OutputLease}
use lab_runtime.Output.Lifecycle.{OutputProposal, renew_native}
use lab_runtime.Output.Commands.{OutputCommand, command}
use lab_runtime.Control.Native.{NativeController, ControllerState}
use lab_runtime.Lifecycle.Loop.{Loop, Method, on_authority, set_control, check_output_time}
use lab_runtime.Lifecycle.Proposal.{Draft, calculate}
use lab_runtime.Lifecycle.Stopping.{Executor, execute, fail_controller}
use lab_runtime.Lifecycle.Starting.{advance_warming, is_seen}

-- What a tick finds outside of the loop: the platform's `exp_m1`, the unit that the descriptor of the
-- output says, whether the output is physical, whether the Runtime's counter of output attempts has a
-- number left, what the executor does with a proposal that the authority took, and with a safe
-- request.
pub record Surroundings : Type 0 where
  pub exp_m1 : F64 → F64
  pub output_unit : Result ControllerError EngineeringUnit
  pub physical : Bool
  pub attempt : Result Error (Unit {0})
  pub delivery : Executor
  pub settling : Executor

unfoldable pub proposal_of : OutputLease → Draft → OutputProposal
proposal_of lease d = record {
  lease = lease;
  value = Value.float d.pid.output;
  unit = d.unit;
  ttl = d.ttl;
}

unfoldable pub deliver : Result Error (Unit {0}) → OutputProposal → ℕ → Executor → Method (Unit {0})
deliver attempt q at x = do
  check (λ _. attempt)
  _ ← on_authority (command (OutputCommand.propose_value q) at)
  execute x

unfoldable pub renewal : Bool → OutputLease → ℕ → Method OutputLease
renewal true lease at l = (ok lease, l)
renewal false lease at l = on_authority (renew_native lease l.control.config.lease_lifetime at) l

unfoldable pub settle_tick : Bool → OutputLease → ℕ → Draft → NativeController → NativeController
settle_tick physical lease at d c = record c {
  lease = some lease;
  last_tick = some at;
  latest_output = if physical then c.latest_output else some d.pid;
}

-- A failure of the loop: the controller fails, and the error is the tick's.
unfoldable pub fail_tick : Error → ℕ → Executor → Method (Unit {0})
fail_tick e at x l = (err e, (fail_controller at x l).1)

unfoldable pub renewed :
    Surroundings → ℕ → Draft → Result Error OutputLease × Loop → Result Error (Unit {0}) × Loop
unfolding settle_tick
renewed s at d (ok lease, l) = (ok tt, set_control (settle_tick s.physical lease at d) l)
renewed s at d (err e, l) =
    fail_tick (Error.controller ControllerError.output_rejected) at s.settling l

unfoldable pub delivered :
    Surroundings
    → ℕ
    → OutputLease
    → Draft
    → Result Error (Unit {0}) × Loop
    → Result Error (Unit {0}) × Loop
delivered s at lease d (ok u, l) = renewed s at d (renewal s.physical lease at l)
delivered s at lease d (err e, l) =
    fail_tick (Error.controller ControllerError.output_rejected) at s.settling l

-- The error on `none` stands for the panic of `expect`: a calculation has found the lease.
unfoldable pub propose_with : Surroundings → ℕ → Draft → Option OutputLease → Method (Unit {0})
propose_with s at d none l =
    fail_tick (Error.controller ControllerError.output_rejected) at s.settling l
propose_with s at d (some lease) l =
    delivered s at lease d (deliver s.attempt (proposal_of lease d) at s.delivery l)

unfoldable pub calculated :
    Surroundings → ℕ → Result ControllerError Draft × Loop → Result Error (Unit {0}) × Loop
calculated s at (ok d, l) = propose_with s at d l.control.lease l
calculated s at (err e, l) = fail_tick (Error.controller e) at s.settling l

unfoldable pub tick_running : Surroundings → ℕ → Method (Unit {0})
tick_running s at l = calculated s at (calculate s.exp_m1 s.output_unit at l)

unfoldable pub tick_in : ControllerState → Surroundings → ℕ → Method (Unit {0})
tick_in ControllerState.running s at l = tick_running s at l
tick_in ControllerState.warming s at l = advance_warming s.exp_m1 at l
tick_in _ s at l = (err (Error.controller ControllerError.invalid_controller_state), l)

unfoldable pub is_active : ControllerState → Bool
is_active ControllerState.running = true
is_active ControllerState.warming = true
is_active _ = false

unfoldable pub tick_controller : Surroundings → ℕ → Method (Unit {0})
unfolding is_active
tick_controller s at = do
  check_output_time at
  check (λ l.
      guard (is_active l.control.state) (Error.controller ControllerError.invalid_controller_state))
  check (λ l.
      guard (not (is_seen at l.control.last_tick))
        (Error.controller ControllerError.invalid_tick_time))
  λ l. tick_in l.control.state s at l
