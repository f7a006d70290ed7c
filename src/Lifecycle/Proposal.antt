-- ===== src/Lifecycle/Proposal.antt =====
-- crates/lab-core/src/runtime/controllers.rs: `calculate_controller_update`, the proposal of a tick.
-- `exp_m1` is the platform's function, `output_unit` the unit that the descriptor of the output says.
use lab_runtime.Base.{
  ℕ, ◌-◌, min, Bool, true, false, ◌||◌, not, ltb, leb, ◌==◌, u64_eq, Option, some, F64, Result, ok,
  err, guard, ok_or, and_then, Act, ◌>>=◌, ◌>>◌, check,
}
use lab_runtime.Model.{EngineeringUnit, unit_eq, ControllerError}
use lab_runtime.Output.Types.{OutputLease, is_lease}
use lab_runtime.Signals.Quality.{SampleQuality}
use lab_runtime.Processing.Ema
use lab_runtime.Processing.Ema.{Ema, EmaUpdate, EmaStatus}
use lab_runtime.Reference.Ramp.{ReferenceError, ReferenceValue}
use lab_runtime.Reference.Runtime.{value_at}
use lab_runtime.Control.Pid
use lab_runtime.Control.Pid.{PidUpdate}
use lab_runtime.Control.Native.{NativeController, replace_error}
use lab_runtime.Lifecycle.Loop.{Loop, set_control}
use lab_runtime.Lifecycle.Input.{Input, control_input}

unfoldable pub map_reference_error : ReferenceError → ControllerError
map_reference_error ReferenceError.invalid_configuration =
    ControllerError.invalid_controller_configuration
map_reference_error ReferenceError.invalid_time = ControllerError.invalid_tick_time
map_reference_error ReferenceError.revision_conflict = ControllerError.controller_revision_conflict
map_reference_error ReferenceError.not_ramp = ControllerError.invalid_controller_configuration
map_reference_error ReferenceError.revision_exhausted =
    ControllerError.controller_revision_exhausted

unfoldable pub mapped : Result ReferenceError ReferenceValue → Result ControllerError ReferenceValue
mapped (ok v) = ok v
mapped (err e) = err (map_reference_error e)

abbrev pub Attempt : Type 0 → Type 0
Attempt A = Act Loop ControllerError A

-- The target at `at`.
unfoldable pub reference_at : ℕ → Attempt ReferenceValue
reference_at at l = let t = value_at at l.reference in (mapped t.0, record l { reference = t.1 })

unfoldable pub filter : (F64 → F64) → Input → Attempt EmaUpdate
filter exp_m1 i l =
    let t = Ema.update exp_m1 (some i.value) SampleQuality.good i.unit i.sample_at l.control.ema in
    (replace_error ControllerError.algorithm t.0, set_control (λ c. record c { ema = t.1 }) l)

unfoldable pub regulate : F64 → F64 → ℕ → Attempt PidUpdate
regulate measurement setpoint at l =
    let t = Pid.update measurement setpoint at l.control.pid in
    (replace_error ControllerError.algorithm t.0, set_control (λ c. record c { pid = t.1 }) l)

-- `at - previous > max_tick_gap`; the caller has checked that time advances.
unfoldable pub within_gap : ℕ → Option ℕ → ℕ → Result ControllerError (Unit {0})
within_gap at last_tick gap =
    and_then (ok_or last_tick ControllerError.invalid_controller_state)
      λ previous. guard (not (ltb gap (at - previous))) ControllerError.invalid_tick_time

-- The lease that the tick uses: its own, unexpired and the authority's.
unfoldable pub own_lease : ℕ → Loop → Result ControllerError OutputLease
own_lease at l = and_then (ok_or l.control.lease ControllerError.output_rejected) λ lease.
    and_then
      (guard (not (leb lease.expires at || not (is_lease l.authority.snapshot.lease lease)))
        ControllerError.output_rejected)
      λ _. ok lease

unfoldable pub is_ready : EmaStatus → Bool
is_ready EmaStatus.ready = true
is_ready _ = false

pub record Draft : Type 0 where
  pub pid : PidUpdate
  pub unit : EngineeringUnit
  pub ttl : ℕ

-- The smallest of the policy's lifetime, the rest of the sample's freshness and that of the lease.
unfoldable pub lifetime : ℕ → Input → OutputLease → NativeController → ℕ
lifetime at i lease c =
    min (min c.config.proposal_ttl (c.config.max_input_age - (at - i.sample_at)))
      (lease.expires - at)

-- The lifetime that the draft has, and the unit of the output.
unfoldable pub draft :
    Result ControllerError EngineeringUnit → ℕ → PidUpdate → Result ControllerError Draft
draft output_unit ttl u =
    and_then (guard (not (ttl == 0)) ControllerError.stale_input)
      λ _. and_then output_unit λ unit. ok (record { pid = u; unit = unit; ttl = ttl })

unfoldable pub calculate : (F64 → F64) → Result ControllerError EngineeringUnit → ℕ → Attempt Draft
unfolding reference_at filter regulate
calculate exp_m1 output_unit at = do
  check (λ l. within_gap at l.control.last_tick l.control.config.max_tick_gap)
  lease ← check (own_lease at)
  i ← check (λ l. control_input l.samples at l.control.config.max_input_age)
  r ← reference_at at
  check (λ l. guard (unit_eq r.unit i.unit) ControllerError.invalid_controller_configuration)
  e ← filter exp_m1 i
  check (λ l. guard (is_ready e.status) ControllerError.algorithm)
  x ← check (λ l. ok_or e.value ControllerError.algorithm)
  u ← regulate x r.value at
  check (λ l. draft output_unit (lifetime at i lease l.control) u)
