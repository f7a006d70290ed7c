-- ===== src/Output/Examples.antt =====
-- A heater of 0 to 100 percent through its life, and the theorems of the output authority at it.
use lab_runtime.Base.{
  ◌≤◌, ◌+◌, suc, is_some, OnSome, u64_max, ◌≡◌, ◌≢◌, ◌<◌, refl, true, false, none, some, List, [],
  ◌∷◌, ok, err, arith, finite, pos, ◌++◌, le_ℤ, eq_ℤ, is_finite, f64_le, f64_eq, in_range,
  checked_add, duration_add,
}
use lab_runtime.Model.{
  EngineeringUnit, ValueSpec, Value, validate, definition_valid, check_value, unit_eq, output,
  invalid_state,
}
use lab_runtime.Output.Types.{
  ActuatorId, OutputOwner, OutputState, OutputLease, OutputIntent, Dispatch, DispatchId,
  DispatchOutcome, SafeProfile, EvidenceLevel, validate_profile, dispatch_id_eq, is_lease, lease_eq,
  actuator_eq,
}
use lab_runtime.Output.Authority.{
  OutputAuthority, new, fresh_snapshot, request_safe, check_lease, profile,
}
use lab_runtime.Output.Lifecycle.{
  OutputResult, OutputProposal, bind, acquire, renew, propose, grant,
}
use lab_runtime.Output.Sending.{begin, next}
use lab_runtime.Output.Settlement.{
  complete, flying, settle, fail_safe, confirm_safe, record_outcome,
}
use lab_runtime.Output.Transport.{
  Reservation, reserve_transport, begin_transport, validate_transport, is_reserved,
  check_permission, launch, intent_eq,
}
use lab_runtime.Output.Commands.{
  trip, release_lease, bind_profile, request_safe_output, acquire_lease, propose_value,
  begin_dispatch, complete_dispatch, command, safe_with_profile, Op, commands, reserves, step, run,
  watchdog,
}
use lab_runtime.Output.Safety.{
  InProfile, Authorised, run-new-Inv, revoked_lease_refused, begin_transport-Authorised,
  dispatch_numbers_differ,
}
use lab_runtime.Output.Queries.{can_prepare, valid_native_duration, prepared_acquires}
use lab_runtime.Output.Evidence.{
  Sufficient, complete_confirms_safe, ambiguous_safe_never_resent, fault_refuses_acquire,
  acquire_arms, renew_extends, watchdog_expires,
}
use lab_runtime.Output.Invariant.{Inv, is_revoked}
use lab_runtime.Output.Permission.{Permits, Reserved}

opened : Unit {0}
unfolding run step command bind acquire renew propose begin complete flying settle fail_safe
    confirm_safe record_outcome request_safe check_lease profile safe_with_profile reserve_transport
    begin_transport validate_transport is_reserved check_permission launch intent_eq validate
    definition_valid check_value unit_eq validate_profile dispatch_id_eq is_lease checked_add
    duration_add is_finite f64_le f64_eq in_range le_ℤ eq_ℤ watchdog fresh_snapshot grant
    actuator_eq lease_eq
opened = tt

abbrev heater : ActuatorId
heater = record { instrument = 1; parameter = 2 }

abbrev percent : EngineeringUnit
percent = record { id = "percent"; symbol = "%" }

abbrev limits : ValueSpec
limits = ValueSpec.float (finite (pos 0)) (finite (pos 100))

abbrev policy : SafeProfile
policy = record {
  min = finite (pos 0);
  max = finite (pos 100);
  safe_value = finite (pos 0);
  max_lease = 1000;
  max_proposal_ttl = 100;
  required_evidence = EvidenceLevel.readback;
}

abbrev start : OutputAuthority
start = record {
  actuator = heater;
  instance_id = 7;
  limits = limits;
  unit = percent;
  snapshot = fresh_snapshot 7;
  pending = none;
  transport_reserved = none;
  safe_obligation_pending = false;
  ambiguous_safe_resend_blocked = false;
  next_dispatch = 1;
}

abbrev first_id : DispatchId
first_id = record { instance_id = 7; sequence = 1 }

-- The profile is installed and the safe write is in flight.
abbrev securing : List Op
securing =
    commands (bind_profile policy) 0
    ∷ commands request_safe_output 0
    ∷ commands begin_dispatch 0
    ∷ []

abbrev confirming : List Op
confirming = commands (complete_dispatch first_id DispatchOutcome.readback_verified) 1 ∷ []

abbrev arming : List Op
arming = commands (acquire_lease (OutputOwner.manual 3) 1000) 2 ∷ []

abbrev lease : OutputLease
lease = record {
  actuator = heater;
  instance_id = 7;
  owner = OutputOwner.manual 3;
  epoch = 3;
  expires = 1002;
}

abbrev ninety : OutputProposal
ninety = record { lease = lease; value = Value.float (finite (pos 90)); unit = percent; ttl = 50 }

abbrev queueing : List Op
queueing =
    commands (propose_value ninety) 3
    ∷ reserves 4 (record {
      queue_deadline = 40;
      attempt_id = none;
      binding_generation = 1;
      mapping_revision = 1;
    })
    ∷ []

abbrev intent : OutputIntent
intent = record {
  actuator = heater;
  attempt_id = none;
  instance_id = 7;
  lease = some lease;
  epoch = 3;
  value = finite (pos 90);
  unit = percent;
  expires = 40;
  safe = false;
  binding_generation = 1;
  mapping_revision = 1;
}

abbrev after : List Op → OutputAuthority
after os = run start os

armed : (after (securing ++ confirming ++ arming)).snapshot.lease ≡ some lease
unfolding opened
armed = refl

start-Inv : (os : List Op) → Inv (after os)
unfolding opened new
start-Inv os = run-new-Inv heater limits percent 7 start os refl

run-new-Inv_example : Inv (after (securing ++ confirming))
unfolding opened new
run-new-Inv_example = run-new-Inv heater limits percent 7 start (securing ++ confirming) refl

revoked_lease_refused_example :
    let b = run (request_safe true (after (securing ++ confirming ++ arming))).1 securing in
    ((r : OutputResult) → (propose ninety 5 b).0 ≢ ok r)
    × ((k : OutputLease) → (renew lease 10 5 b).0 ≢ ok k)
    × ((r : OutputResult) → (release_lease lease 5 b).0 ≢ ok r)
unfolding opened
revoked_lease_refused_example =
    revoked_lease_refused (after (securing ++ confirming ++ arming)) lease true securing ninety 10 5
      (start-Inv (securing ++ confirming ++ arming)) refl refl

abbrev queued : OutputAuthority
queued = after (securing ++ confirming ++ arming ++ queueing)

abbrev second_id : DispatchId
second_id = record { instance_id = 7; sequence = 2 }

begin_transport-Authorised_example :
    Reserved queued intent
    × (intent.actuator ≡ queued.actuator)
    × (intent.instance_id ≡ queued.instance_id)
    × (unit_eq intent.unit queued.unit ≡ true)
    × (validate queued.limits (Value.float intent.value) ≡ ok tt)
    × (queued.snapshot.in_flight ≡ none)
    × (intent.epoch ≡ queued.snapshot.epoch)
    × (5 < intent.expires)
    × (is_some queued.snapshot.profile ≡ true)
    × InProfile queued intent.value
    × Authorised queued intent 5
    × (second_id.sequence ≡ queued.next_dispatch)
    × ((begin_transport intent 5 queued).1.next_dispatch ≡ suc second_id.sequence)
    × ((begin_transport intent 5 queued).1.snapshot.in_flight
        ≡ some (next intent.value intent.safe intent.epoch queued))
unfolding opened
begin_transport-Authorised_example = begin_transport-Authorised intent 5 queued second_id refl

complete_confirms_safe_example :
    (d : Dispatch) × ((after securing).snapshot.in_flight ≡ some d)
    × (d.id ≡ first_id)
    × (d.safe ≡ true)
    × (d.epoch ≡ (after securing).snapshot.epoch)
    × Sufficient DispatchOutcome.readback_verified (after securing)
unfolding opened
complete_confirms_safe_example =
    complete_confirms_safe first_id DispatchOutcome.readback_verified 1 (after securing)
      (start-Inv securing) refl refl

abbrev safe_write : Dispatch
safe_write = record { id = first_id; value = finite (pos 0); safe = true; epoch = 2 }

ambiguous_safe_never_resent_example :
    let b = run (complete first_id DispatchOutcome.ambiguous 1 (after securing)).1 confirming in
    (b.snapshot.sent ≡ (after securing).snapshot.sent)
    × (b.next_dispatch ≡ (after securing).next_dispatch)
    × (b.safe_obligation_pending ≡ true)
    × (b.snapshot.state ≡ OutputState.fault_latched)
    × (b.snapshot.lease ≡ none)
unfolding opened
ambiguous_safe_never_resent_example =
    ambiguous_safe_never_resent first_id DispatchOutcome.ambiguous 1 (after securing) safe_write
      confirming (start-Inv securing) refl refl refl (omega arith)

abbrev tripped : List Op
tripped = commands (bind_profile policy) 0 ∷ commands trip 0 ∷ []

fault_refuses_acquire_example :
    acquire (OutputOwner.automatic 1) 10 5 (after tripped)
    ≡ (err (output invalid_state), after tripped)
unfolding opened
fault_refuses_acquire_example =
    fault_refuses_acquire (OutputOwner.automatic 1) 10 5 (after tripped) (start-Inv tripped) refl

abbrev confirmed : OutputAuthority
confirmed = after (securing ++ confirming)

acquire_arms_example :
    (confirmed.snapshot.state ≡ OutputState.disarmed)
    × (confirmed.snapshot.safe_confirmed ≡ true)
    × (confirmed.snapshot.fault_latched ≡ false)
    × (0 < 1000)
    × OnSome (λ (p : SafeProfile). 1000 ≤ p.max_lease) confirmed.snapshot.profile
    × (lease.owner ≡ OutputOwner.manual 3)
    × (lease.expires ≡ 2 + 1000)
    × (lease.epoch ≡ confirmed.snapshot.epoch + 1)
    × ((acquire (OutputOwner.manual 3) 1000 2 confirmed).1.snapshot.lease ≡ some lease)
    × ((acquire (OutputOwner.manual 3) 1000 2 confirmed).1.snapshot.safe_confirmed ≡ false)
unfolding opened
acquire_arms_example =
    acquire_arms (OutputOwner.manual 3) 1000 2 confirmed lease (start-Inv (securing ++ confirming))
      refl

abbrev renewed : OutputLease
renewed = record lease { expires = 1100 }

abbrev holder : OutputAuthority
holder = after (securing ++ confirming ++ arming)

renew_extends_example :
    Permits holder lease 600
    × (holder.pending ≡ none)
    × (holder.transport_reserved ≡ none)
    × (holder.snapshot.in_flight ≡ none)
    × (renewed ≡ record lease { expires = 600 + 500 })
    × (lease.expires < renewed.expires)
    × ((renew lease 500 600 holder).1.snapshot.lease ≡ some renewed)
unfolding opened
renew_extends_example = renew_extends lease renewed 500 600 holder refl

watchdog_expires_example :
    (lease.expires ≤ 1002
      → ((watchdog 1002 holder).1.snapshot.lease ≡ none)
        × ((watchdog 1002 holder).1.pending ≡ none)
        × (is_revoked (watchdog 1002 holder).1.snapshot.state ≡ true)
        × (holder.snapshot.epoch < u64_max
            → (watchdog 1002 holder).1.safe_obligation_pending ≡ true))
    × (1002 < lease.expires → watchdog 1002 holder ≡ (ok tt, holder))
unfolding opened
watchdog_expires_example = watchdog_expires 1002 holder lease refl

-- The safe write fails before any byte is sent, is reserved again and starts under the next number.
abbrev again : Reservation
again = record {
  queue_deadline = 90;
  attempt_id = none;
  binding_generation = 1;
  mapping_revision = 1;
}

abbrev safe_intent_again : OutputIntent
safe_intent_again = record {
  actuator = heater;
  attempt_id = none;
  instance_id = 7;
  lease = none;
  epoch = 4;
  value = finite (pos 0);
  unit = percent;
  expires = 90;
  safe = true;
  binding_generation = 1;
  mapping_revision = 1;
}

abbrev interrupting : List Op
interrupting =
    commands request_safe_output 6
    ∷ commands (complete_dispatch second_id DispatchOutcome.readback_verified) 7
    ∷ reserves 8 again
    ∷ []

abbrev third_id : DispatchId
third_id = record { instance_id = 7; sequence = 3 }

dispatch_numbers_differ_example : second_id.sequence < third_id.sequence
unfolding opened
dispatch_numbers_differ_example =
    dispatch_numbers_differ intent safe_intent_again 5 9 queued interrupting second_id third_id
      (start-Inv (securing ++ confirming ++ arming ++ queueing)) refl refl

prepared_acquires_example :
    (l : OutputLease) × ((acquire (OutputOwner.automatic 4) 500 2 confirmed).0
      ≡ ok (OutputResult.lease l))
    × (l.expires ≡ 2 + 500)
    × (2 + 100 < l.expires)
unfolding opened can_prepare valid_native_duration
prepared_acquires_example =
    prepared_acquires (OutputOwner.automatic 4) 100 500 2 confirmed refl refl (omega arith)
      (omega arith)
