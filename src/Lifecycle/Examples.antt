-- ===== src/Lifecycle/Examples.antt =====
-- crates/lab-core/src/runtime/controllers.rs: a controller that is started and ticks once, and the same
-- tick without a fresh sample.
use lab_runtime.Base.{
  ℕ, ◌≡◌, refl, true, false, none, some, List, [], ◌∷◌, F64, f64_of_nat, f64_neg, f64_zero, f64_add,
  f64_sub, f64_mul, f64_div, f64_lt, f64_le, f64_eq, f64_clamp, le_ℤ, eq_ℤ, in_range, as_secs, ok,
  err, excess, nearest, signed, round_ratio, is_negative, magnitude, neg_ℤ, sum_units, differ,
  scaled_infinity, quotient, is_finite, checked_add, duration_add, back, pop_front, push_bounded,
}
use lab_runtime.Model.{
  EngineeringUnit, Error, ControllerError, Value, ValueSpec, unit_eq, validate, definition_valid,
  check_value,
}
use lab_runtime.Output.Types.{
  ActuatorId, SafeProfile, OutputLease, OutputOwner, EvidenceLevel, DispatchId, DispatchOutcome,
  is_lease, lease_eq, actuator_eq, owner_eq, dispatch_id_eq, validate_profile,
}
use lab_runtime.Output.Authority
use lab_runtime.Output.Authority.{
  OutputAuthority, fresh_snapshot, profile, is_armed, bump_epoch, request_safe, revoke,
  clear_pending, fail_manual_before_send, fail_attempt, check_lease,
}
use lab_runtime.Output.Lifecycle.{
  bind, install, is_idle, is_disarmed, acquire, grant, issue, armed_by, check_lifetime,
}
use lab_runtime.Output.Sending.{
  begin, begin_safe, send, put_in_flight, next, evidence, manual_send_started,
}
use lab_runtime.Output.Settlement.{
  complete, flying, record_outcome, acknowledges, verifies, capture_manual_delivery, settle,
  confirm_safe, conclude_safe, is_sufficient, accepts_acknowledgement,
}
use lab_runtime.Output.Queries.{can_prepare, valid_native_duration}
use lab_runtime.Output.Commands.{Op, OutputCommand, command, step, safe_with_profile, watchdog}
use lab_runtime.Signals.Sample.{SignalId, good_sample, signal_is}
use lab_runtime.Signals.Buffer.{push, push_checked, check_time, check_after, append_sample, latest}
use lab_runtime.Signals.Window
use lab_runtime.Signals.Window.{SignalCall}
use lab_runtime.Processing.Ema
use lab_runtime.Processing.Ema.{
  EmaConfig, empty_snapshot, attempt, commit_good, commit, counted, finite_candidate, candidate,
  filtered, status_of, is_late,
}
use lab_runtime.Reference.Ramp.{fixed_value_at, precedes}
use lab_runtime.Reference.Runtime.{RuntimeReference, value_at, with_fixed}
use lab_runtime.Control.Pid
use lab_runtime.Control.Pid.{
  PidConfig, PidUpdate, empty_memory, is_valid_config, step_from, pushes_upper, pushes_lower,
  chosen_integral, calculate as calculate_pid, all_finite, remember, finish_update,
}
use lab_runtime.Control.Native.{
  NativeController, NativeControllerConfig, ControllerState, new_controller, reset_algorithms,
}
use lab_runtime.Lifecycle.Loop.{Loop, check_output_time}
use lab_runtime.Lifecycle.Input.{control_input, input_of, fresh_reading, usable}
use lab_runtime.Lifecycle.Proposal.{
  Draft, mapped, reference_at, filter, regulate, within_gap, own_lease, is_ready, lifetime, draft,
  calculate,
}
use lab_runtime.Lifecycle.Starting.{
  same_state, hold, take_over, acquire_output, activate_controller, activate_if, prepare_controller,
  enter_warming, start_or_resume_controller, is_seen,
}
use lab_runtime.Lifecycle.Stopping.{Executor}
use lab_runtime.Lifecycle.Ticking.{
  Surroundings, tick_running, calculated, fail_tick, tick_controller,
}
use lab_runtime.Lifecycle.Sound.{Sound}
use lab_runtime.Lifecycle.Proposing.{Ticked}
use lab_runtime.Lifecycle.Revoking.{Revoked}
use lab_runtime.Lifecycle.Failing.{failed_tick_revokes}
use lab_runtime.Lifecycle.Calls.{
  LoopCall, call, calls, Fresh, lease_while_running, proposals_bounded,
}

opened : Unit {0}
unfolding calls call step command bind install is_idle is_disarmed bump_epoch clear_pending profile
    request_safe revoke fail_manual_before_send fail_attempt safe_with_profile begin begin_safe send
    put_in_flight next evidence manual_send_started complete flying record_outcome acknowledges
    verifies capture_manual_delivery settle confirm_safe conclude_safe is_sufficient
    accepts_acknowledgement acquire grant issue armed_by check_lifetime can_prepare
    valid_native_duration watchdog fresh_snapshot validate_profile validate definition_valid
    check_value dispatch_id_eq unit_eq is_finite f64_le f64_eq le_ℤ eq_ℤ in_range f64_of_nat
    round_ratio excess nearest signed checked_add duration_add Window.call push push_checked
    check_time check_after append_sample push_bounded pop_front back latest signal_is good_sample
    control_input input_of fresh_reading usable reference_at value_at with_fixed fixed_value_at
    precedes mapped filter Ema.update attempt commit_good finite_candidate candidate commit counted
    status_of is_late is_ready prepare_controller start_or_resume_controller same_state
    enter_warming activate_if activate_controller acquire_output take_over hold check_output_time
    reset_algorithms Ema.reset Pid.reset calculate within_gap own_lease is_lease lease_eq
    actuator_eq owner_eq lifetime draft regulate Pid.update finish_update step_from calculate_pid
    chosen_integral pushes_upper pushes_lower all_finite remember filtered f64_clamp f64_lt f64_neg
    f64_add f64_sub f64_mul f64_div as_secs is_negative magnitude neg_ℤ sum_units differ
    scaled_infinity quotient tick_running calculated fail_tick is_seen
opened = tt

abbrev settled : F64 → F64
settled x = f64_neg (f64_of_nat 1)

abbrev kelvin : EngineeringUnit
kelvin = record { id = "K"; symbol = "K" }

abbrev percent : EngineeringUnit
percent = record { id = "percent"; symbol = "%" }

abbrev heater : ActuatorId
heater = record { instrument = 1; parameter = 2 }

abbrev probe : SignalId
probe = record { instrument = 4; parameter = 9 }

abbrev gains : PidConfig
gains = record {
  kp = f64_of_nat 2;
  ki = f64_zero;
  kd = f64_zero;
  output_min = f64_zero;
  output_max = f64_of_nat 100;
}

abbrev filtering : EmaConfig
filtering = record { time_constant = 1000; warmup_samples = 1; unit = kelvin }

abbrev setup : NativeControllerConfig
setup = record {
  id = 5;
  input = probe;
  output = heater;
  reference = 3;
  ema = filtering;
  pid = gains;
  max_input_age = 50;
  max_tick_gap = 100;
  lease_lifetime = 1000;
  proposal_ttl = 40;
}

abbrev controller : NativeController
controller = record {
  config = setup;
  state = ControllerState.created;
  ema = record { config = filtering; state = empty_snapshot };
  pid = record { config = gains; state = empty_memory };
  lease = none;
  last_tick = none;
  latest_output = none;
  config_revision = 1;
}

abbrev limits : ValueSpec
limits = ValueSpec.float f64_zero (f64_of_nat 100)

abbrev heating : OutputAuthority
heating = record {
  actuator = heater;
  instance_id = 7;
  limits = limits;
  unit = percent;
  snapshot = fresh_snapshot 7;
  pending = none;
  transport_reserved = none;
  safe_obligation_pending = false;
  ambiguous_safe_resend_blocked = false;
  next_dispatch = 1;
}

abbrev loop : Loop
loop = record {
  control = controller;
  authority = heating;
  reference =
      RuntimeReference.fixed_target 3
        (record { value = f64_of_nat 30; unit = kelvin; last_at = none }) 1;
  samples = record { id = probe; capacity = 8; samples = [] };
  output_time = 0;
}

abbrev policy : SafeProfile
policy = record {
  min = f64_zero;
  max = f64_of_nat 100;
  safe_value = f64_zero;
  max_lease = 5000;
  max_proposal_ttl = 100;
  required_evidence = EvidenceLevel.readback;
}

abbrev reading : ℕ → ℕ → LoopCall
reading at n =
    LoopCall.observes (SignalCall.pushed (good_sample probe kelvin at (Value.float (f64_of_nat n))))

abbrev first_id : DispatchId
first_id = record { instance_id = 7; sequence = 1 }

-- The output is made safe, the controller prepared and started on a first sample.
abbrev starting : List LoopCall
starting =
    LoopCall.others_do (Op.commands (OutputCommand.bind_profile policy) 0)
    ∷ LoopCall.others_do (Op.commands OutputCommand.request_safe_output 0)
    ∷ LoopCall.others_do (Op.commands OutputCommand.begin_dispatch 0)
    ∷ LoopCall.others_do
        (Op.commands (OutputCommand.complete_dispatch first_id DispatchOutcome.readback_verified) 1)
    ∷ LoopCall.prepares (ok tt)
    ∷ reading 8 25
    ∷ LoopCall.starts settled 10 false
    ∷ []

abbrev lease : OutputLease
lease = record {
  actuator = heater;
  instance_id = 7;
  owner = OutputOwner.automatic 5;
  epoch = 3;
  expires = 1010;
}

started : (calls starting loop).control.lease ≡ some lease
unfolding opened
started = refl

fresh_loop : Fresh loop
unfolding new_controller Ema.new Pid.new is_valid_config is_finite f64_le le_ℤ f64_of_nat
    round_ratio excess nearest signed Authority.new checked_add fresh_snapshot
fresh_loop = record {
  config = setup;
  made = refl;
  actuator = heater;
  limits = limits;
  unit = percent;
  counter = 7;
  registered = refl;
}

lease_while_running_example : Sound (calls starting loop)
lease_while_running_example = lease_while_running loop starting fresh_loop

abbrev later : List LoopCall
later =
    LoopCall.others_do (Op.commands (OutputCommand.bind_profile policy) 0)
    ∷ LoopCall.others_do (Op.commands OutputCommand.request_safe_output 0)
    ∷ LoopCall.others_do (Op.commands OutputCommand.begin_dispatch 0)
    ∷ LoopCall.others_do
        (Op.commands (OutputCommand.complete_dispatch first_id DispatchOutcome.readback_verified) 1)
    ∷ LoopCall.prepares (ok tt)
    ∷ reading 8 25
    ∷ LoopCall.starts settled 10 false
    ∷ reading 18 20
    ∷ []

abbrev twenty : Draft
twenty = record {
  pid = record {
    p = f64_of_nat 20;
    i = f64_zero;
    d = f64_zero;
    unconstrained = f64_of_nat 20;
    output = f64_of_nat 20;
    at = 20;
  };
  unit = percent;
  ttl = 40;
}

twenty_calculated :
    calculate settled (ok percent) 20 (calls later loop)
    ≡ (ok twenty, (calculate settled (ok percent) 20 (calls later loop)).1)
unfolding opened
twenty_calculated = refl

abbrev nothing_more : Executor
nothing_more = record { operations = []; result = ok tt }

abbrev surroundings : Surroundings
surroundings = record {
  exp_m1 = settled;
  output_unit = ok percent;
  physical = true;
  attempt = ok tt;
  delivery = nothing_more;
  settling = nothing_more;
}

stale_tick :
    (tick_running surroundings 90 (calls starting loop)).0
    ≡ err (Error.controller ControllerError.stale_input)
unfolding opened
stale_tick = refl

failed_tick_revokes_example : Revoked lease (tick_running surroundings 90 (calls starting loop)).1
failed_tick_revokes_example =
    failed_tick_revokes surroundings 90 (calls starting loop) lease
      (Error.controller ControllerError.stale_input) (lease_while_running loop starting fresh_loop)
      started stale_tick

-- The watchdog and the checks of a tick at 20 pass.
abbrev watched : Loop
watched = (check_output_time 20 (calls later loop)).1

timely : (check_output_time 20 (calls later loop)).0 ≡ ok tt
unfolding opened
timely = refl

running : watched.control.state ≡ ControllerState.running
unfolding opened
running = refl

unseen : is_seen 20 watched.control.last_tick ≡ false
unfolding opened
unseen = refl

proposals_bounded_example :
    Ticked surroundings 20 watched (tick_controller surroundings 20 (calls later loop))
proposals_bounded_example =
    proposals_bounded loop later fresh_loop surroundings 20 timely running unseen
