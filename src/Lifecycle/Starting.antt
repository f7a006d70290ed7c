-- ===== src/Lifecycle/Starting.antt =====
-- crates/lab-core/src/runtime/controllers.rs: `prepare_controller`, `start_or_resume_controller`,
-- `activate_controller` and `advance_warming`.
use lab_runtime.Base.{
  ℕ, Bool, true, false, not, leb, if◌then◌else◌, Option, none, some, F64, Result, ok, err, guard,
  ◌>>=◌, ◌>>◌, check, modify,
}
use lab_runtime.Model.{unit_eq, Error, OutputError, ControllerError}
use lab_runtime.Output.Types.{OutputLease, OutputOwner}
use lab_runtime.Output.Authority.{OutputAuthority}
use lab_runtime.Output.Lifecycle.{OutputResult}
use lab_runtime.Output.Queries.{can_prepare, valid_native_duration}
use lab_runtime.Output.Commands.{OutputCommand, command}
use lab_runtime.Control.Native.{NativeController, ControllerState, reset_algorithms, replace_error}
use lab_runtime.Lifecycle.Loop.{Loop, Method, set_control, check_output_time}
use lab_runtime.Lifecycle.Input.{Input, control_input}
use lab_runtime.Lifecycle.Proposal.{Attempt, reference_at, filter, within_gap, is_ready}

abbrev pub into_error : {A : Type 0} → Result ControllerError A → Result Error A
into_error (ok a) = ok a
into_error (err e) = err (Error.controller e)

-- `?` on an error of the controller in a method whose error is the Runtime's.
abbrev pub into : {A : Type 0} → Attempt A → Method A
into m l = let t = m l in (into_error t.0, t.1)

unfoldable pub same_state : ControllerState → ControllerState → Bool
same_state ControllerState.created ControllerState.created = true
same_state ControllerState.ready ControllerState.ready = true
same_state ControllerState.warming ControllerState.warming = true
same_state ControllerState.running ControllerState.running = true
same_state ControllerState.paused ControllerState.paused = true
same_state ControllerState.failed ControllerState.failed = true
same_state _ _ = false

unfoldable pub hold : OutputLease → NativeController → NativeController
hold lease c = record c { lease = some lease; state = ControllerState.running }

-- The acquisition's answer; `Acquire` has one successful result kind, and the error on another stands for
-- the source's `unreachable!`.
unfoldable pub take_over : Result Error OutputResult → Method (Unit {0})
unfolding hold
take_over (ok (OutputResult.lease lease)) l = (ok tt, set_control (hold lease) l)
take_over (ok r) l = (err (Error.controller ControllerError.output_rejected), l)
take_over (err e) l = (err e, set_control (λ c. record c { state = ControllerState.failed }) l)

unfoldable pub acquire_output : ℕ → Loop → Result Error OutputResult × OutputAuthority
acquire_output at l =
    command
      (OutputCommand.acquire_lease (OutputOwner.automatic l.control.config.id)
        l.control.config.lease_lifetime)
      at l.authority

unfoldable pub activate_controller : ℕ → Method (Unit {0})
activate_controller at l =
    if can_prepare l.authority
    then (let t = acquire_output at l in take_over t.0 (record l { authority = t.1 }))
    else (
      err (Error.controller ControllerError.output_rejected),
      set_control (λ c. record c { state = ControllerState.failed }) l,
    )

unfoldable pub activate_if : Bool → ℕ → Method (Unit {0})
activate_if true at l = activate_controller at l
activate_if false at l = (ok tt, l)

-- The validation of the controller's descriptors is an argument.
unfoldable pub prepare_controller : Result Error (Unit {0}) → Method (Unit {0})
unfolding same_state
prepare_controller valid = do
  check (λ l.
      guard (same_state l.control.state ControllerState.created)
        (Error.controller ControllerError.invalid_controller_state))
  check (λ l. valid)
  modify (set_control (λ c. record c { state = ControllerState.ready }))

unfoldable pub enter_warming : ℕ → NativeController → NativeController
enter_warming at c = record c { last_tick = some at; state = ControllerState.warming }

unfoldable pub start_or_resume_controller :
    (F64 → F64) → ℕ → ControllerState → Bool → Method (Unit {0})
unfolding same_state enter_warming
start_or_resume_controller exp_m1 at expected others_warm = do
  check_output_time at
  check (λ l.
      guard (same_state l.control.state expected)
        (Error.controller ControllerError.invalid_controller_state))
  check (λ l. guard (not others_warm) (Error.output OutputError.busy))
  check (λ l. guard (can_prepare l.authority) (Error.controller ControllerError.output_rejected))
  check (λ l.
      guard
        (valid_native_duration l.control.config.max_tick_gap l.control.config.lease_lifetime
          l.authority)
        (Error.controller ControllerError.invalid_controller_configuration))
  i ← check (λ l. into_error (control_input l.samples at l.control.config.max_input_age))
  check (λ l.
      guard (unit_eq i.unit l.control.config.ema.unit)
        (Error.controller ControllerError.invalid_controller_configuration))
  r ← into (reference_at at)
  check (λ l.
      guard (unit_eq r.unit i.unit)
        (Error.controller ControllerError.invalid_controller_configuration))
  modify (set_control reset_algorithms)
  e ← into (filter exp_m1 i)
  modify (set_control (enter_warming at))
  activate_if (is_ready e.status) at

-- Whether the filter has taken this sample already.
unfoldable pub is_seen : ℕ → Option ℕ → Bool
is_seen sample_at none = false
is_seen sample_at (some last) = leb sample_at last

unfoldable pub ticked : ℕ → NativeController → NativeController
ticked at c = record c { last_tick = some at }

unfoldable pub warm_with : (F64 → F64) → ℕ → Input → Method (Unit {0})
unfolding ticked
warm_with exp_m1 at i = do
  e ← into (filter exp_m1 i)
  modify (set_control (ticked at))
  λ l.
      (let t = activate_if (is_ready e.status) at l in
        (replace_error (Error.controller ControllerError.output_rejected) t.0, t.1))

unfoldable pub warm : (F64 → F64) → ℕ → Method (Unit {0})
warm exp_m1 at = do
  check (λ l. into_error (within_gap at l.control.last_tick l.control.config.max_tick_gap))
  i ← check (λ l. into_error (control_input l.samples at l.control.config.max_input_age))
  check (λ l.
      guard (unit_eq i.unit l.control.config.ema.unit)
        (Error.controller ControllerError.invalid_controller_configuration))
  r ← into (reference_at at)
  check (λ l.
      guard (unit_eq r.unit i.unit)
        (Error.controller ControllerError.invalid_controller_configuration))
  λ l.
      if is_seen i.sample_at l.control.ema.state.last_at
      then (ok tt, set_control (ticked at) l)
      else warm_with exp_m1 at i l

unfoldable pub give_up : NativeController → NativeController
give_up c = record c { state = ControllerState.failed; lease = none }

-- Preparation never owned the output, so its failure needs no trip.
unfoldable pub warmed : Result Error (Unit {0}) × Loop → Result Error (Unit {0}) × Loop
warmed (ok u, l) = (ok u, l)
warmed (err e, l) = (err e, set_control give_up l)

unfoldable pub advance_warming : (F64 → F64) → ℕ → Method (Unit {0})
advance_warming exp_m1 at l = warmed (warm exp_m1 at l)
