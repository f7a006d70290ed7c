-- ===== src/Lifecycle/Entering.antt =====
-- crates/lab-core/src/runtime/controllers.rs: warm-up, activation and a running tick keep the loop
-- sound.
use lab_runtime.Base.{
  ℕ, ◌≤◌, ◌≡◌, inl, inr, refl, ap, ◌∙◌, Bool, true, false, not, none, F64, Result, ok, err, guard,
  arith, Bool-cases, run_on_keeps, run_on_then, check_keeps, check_known, guard_passed, run_on,
  checked_add,
}
use lab_runtime.Model.{unit_eq, Error, OutputError, ControllerError}
use lab_runtime.Output.Types.{OutputLease, OutputOwner}
use lab_runtime.Output.Authority.{OutputAuthority}
use lab_runtime.Output.Lifecycle.{OutputResult, acquire}
use lab_runtime.Output.Queries.{can_prepare, valid_native_duration}
use lab_runtime.Output.Commands.{OutputCommand, command}
use lab_runtime.Control.Native.{NativeController, ControllerState, reset_algorithms}
use lab_runtime.Lifecycle.Loop.{Loop, set_control, check_output_time}
use lab_runtime.Lifecycle.Input.{Input, control_input}
use lab_runtime.Lifecycle.Proposal.{reference_at, filter, within_gap, is_ready}
use lab_runtime.Lifecycle.Starting.{
  into_error, into, same_state, hold, take_over, acquire_output, activate_controller, activate_if,
  enter_warming, start_or_resume_controller, is_seen, ticked, warm_with, warm, give_up, warmed,
  advance_warming,
}
use lab_runtime.Lifecycle.Sound.{Sound, GoodPid, is_running, command-Sound, check_output_time-Sound}
use lab_runtime.Lifecycle.Kept.{Kept, reference_at-Kept, filter-Kept}
use lab_runtime.Lifecycle.Preserving.{idle-Sound, reset-GoodPid, lease_of_stopped}

-- The lease that an acquisition issues is of the epoch that it leaves.
acquired_epoch :
    (owner : OutputOwner) (lifetime at : ℕ) (a : OutputAuthority) (m : OutputLease)
    → (acquire owner lifetime at a).0 ≡ ok (OutputResult.lease m)
    → m.epoch ≤ (acquire owner lifetime at a).1.snapshot.epoch
unfolding acquire checked_add
acquired_epoch owner lifetime at a m h = ground arith

-- A loop without a lease that does not run.
pub record Idle (l : Loop) : Type 0 where
  pub sound : Sound l
  pub empty : l.control.lease ≡ none
  pub stopped : is_running l.control.state ≡ false

take_over-Sound :
    (r : Result Error OutputResult) (l : Loop)
    → Idle l
    → ((m : OutputLease) → r ≡ ok (OutputResult.lease m) → m.epoch ≤ l.authority.snapshot.epoch)
    → Sound (take_over r l).1
unfolding take_over hold is_running
take_over-Sound (ok (OutputResult.lease m)) l i past = record {
  authority_inv = i.sound.authority_inv;
  lease_running = refl;
  lease_past = past m refl;
  pid_good = i.sound.pid_good;
}
take_over-Sound (err e) l i past = idle-Sound l _ i.sound i.empty refl i.sound.pid_good
take_over-Sound (ok r) l i past = i.sound

activate_controller-Sound : (at : ℕ) (l : Loop) → Idle l → Sound (activate_controller at l).1
unfolding activate_controller acquire_output command is_running
activate_controller-Sound at l i = elim (Bool-cases (can_prepare l.authority)) [
  | inl e ↦ rw e (
      take_over-Sound _ _
        (record {
          sound =
              command-Sound
                (OutputCommand.acquire_lease (OutputOwner.automatic l.control.config.id)
                  l.control.config.lease_lifetime)
                at l i.sound;
          empty = i.empty;
          stopped = i.stopped;
        })
        (acquired_epoch (OutputOwner.automatic l.control.config.id) l.control.config.lease_lifetime
          at l.authority))
  | inr e ↦ rw e (idle-Sound l _ i.sound i.empty refl i.sound.pid_good)
]

activate_if-Sound : (b : Bool) (at : ℕ) (l : Loop) → Idle l → Sound (activate_if b at l).1
unfolding activate_if
activate_if-Sound true at l i = activate_controller-Sound at l i
activate_if-Sound false at l i = i.sound

still_without_lease : (l m : Loop) → Idle l → Kept l m → Idle m
still_without_lease l m i k = record {
  sound = k.sound;
  empty = k.lease_kept ∙ i.empty;
  stopped = ap is_running k.state_kept ∙ i.stopped;
}

reference_at-Idle : (at : ℕ) (l : Loop) → Idle l → Idle (reference_at at l).1
reference_at-Idle at l i =
    still_without_lease l (reference_at at l).1 i (reference_at-Kept l l at (start i))
  where
    start : Idle l → Kept l l
    start i = record {
      sound = i.sound;
      lease_kept = refl;
      state_kept = refl;
      authority_kept = refl;
    }

filter-Idle : (exp_m1 : F64 → F64) (x : Input) (l : Loop) → Idle l → Idle (filter exp_m1 x l).1
filter-Idle exp_m1 x l i =
    still_without_lease l (filter exp_m1 x l).1 i (filter-Kept exp_m1 l l x (start i))
  where
    start : Idle l → Kept l l
    start i = record {
      sound = i.sound;
      lease_kept = refl;
      state_kept = refl;
      authority_kept = refl;
    }

control-Idle :
    (l : Loop) (c : NativeController)
    → Idle l
    → c.lease ≡ l.control.lease
    → is_running c.state ≡ false
    → GoodPid c.pid
    → Idle (record l { control = c })
control-Idle l c i same stopped good = record {
  sound = idle-Sound l c i.sound (same ∙ i.empty) stopped good;
  empty = same ∙ i.empty;
  stopped = stopped;
}

pub same_state_running :
    (a b : ControllerState) → same_state a b ≡ true → is_running b ≡ false → is_running a ≡ false
unfolding same_state is_running
same_state_running a b h stopped = ground arith

warm_with-Sound :
    (exp_m1 : F64 → F64) (at : ℕ) (x : Input) (l : Loop)
    → Idle l
    → Sound (warm_with exp_m1 at x l).1
unfolding warm_with ticked
warm_with-Sound exp_m1 at x l i =
    run_on_then Idle Sound (into (filter exp_m1 x) l) _ (filter-Idle exp_m1 x l i) (λ m k. k.sound)
      λ e m k.
        activate_if-Sound (is_ready e.status) at _
          (control-Idle m (ticked at m.control) k refl k.stopped k.sound.pid_good)

warm-Sound : (exp_m1 : F64 → F64) (at : ℕ) (l : Loop) → Idle l → Sound (warm exp_m1 at l).1
unfolding warm ticked
warm-Sound exp_m1 at l i =
    check_keeps Sound (into_error (within_gap at l.control.last_tick l.control.config.max_tick_gap))
      l _ i.sound
      λ _.
        check_keeps Sound (into_error (control_input l.samples at l.control.config.max_input_age)) l
          _ i.sound
          λ x.
            check_keeps Sound
              (guard (unit_eq x.unit l.control.config.ema.unit)
                (Error.controller ControllerError.invalid_controller_configuration))
              l _ i.sound
              λ _.
                run_on_then Idle Sound (into (reference_at at) l) _ (reference_at-Idle at l i)
                  (λ m k. k.sound)
                  λ r m k.
                    check_keeps Sound
                      (guard (unit_eq r.unit x.unit)
                        (Error.controller ControllerError.invalid_controller_configuration))
                      m _ k.sound
                      λ _. elim (Bool-cases (is_seen x.sample_at m.control.ema.state.last_at)) [
                        | inl e ↦
                            rw e
                              (control-Idle m (ticked at m.control) k refl k.stopped
                                k.sound.pid_good).sound
                        | inr e ↦ rw e (warm_with-Sound exp_m1 at x m k)
                      ]

warmed-Sound : (r : Result Error (Unit {0}) × Loop) → Sound r.1 → Sound (warmed r).1
unfolding warmed give_up is_running
warmed-Sound (ok u, l) s = s
warmed-Sound (err e, l) s = idle-Sound l (give_up l.control) s refl refl s.pid_good

pub advance_warming-Sound :
    (exp_m1 : F64 → F64) (at : ℕ) (l : Loop) → Idle l → Sound (advance_warming exp_m1 at l).1
unfolding advance_warming
advance_warming-Sound exp_m1 at l i = warmed-Sound (warm exp_m1 at l) (warm-Sound exp_m1 at l i)

-- The end of a start: reset, first sample, warm-up or activation.
filtered-Sound :
    (exp_m1 : F64 → F64) (at : ℕ) (x : Input) (l : Loop)
    → Idle l
    → Sound
        (run_on
          (into (filter exp_m1 x) (set_control reset_algorithms l))
          (λ e m. activate_if (is_ready e.status) at (set_control (enter_warming at) m))).1
unfolding enter_warming reset_algorithms is_running
filtered-Sound exp_m1 at x l i =
    let fresh = reset_algorithms l.control in
    let j : Idle (record l { control = fresh }) =
      control-Idle l fresh i refl i.stopped (reset-GoodPid l.control.pid i.sound.pid_good) in
    run_on_then Idle Sound (into (filter exp_m1 x) (record l { control = fresh })) _
      (filter-Idle exp_m1 x (record l { control = fresh }) j) (λ m k. k.sound)
      λ e m k.
        activate_if-Sound (is_ready e.status) at _
          (control-Idle m (enter_warming at m.control) k refl refl k.sound.pid_good)

before_start :
    (expected : ControllerState) (m : Loop)
    → is_running expected ≡ false
    → Sound m
    → same_state m.control.state expected ≡ true
    → Idle m
before_start expected m stopped k e =
    let still = same_state_running m.control.state expected e stopped in
    record { sound = k; empty = lease_of_stopped m k still; stopped = still }

-- A start is asked of a state that does not run.
pub start_or_resume_controller-Sound :
    (exp_m1 : F64 → F64) (at : ℕ) (expected : ControllerState) (others_warm : Bool) (l : Loop)
    → is_running expected ≡ false
    → Sound l
    → Sound (start_or_resume_controller exp_m1 at expected others_warm l).1
unfolding start_or_resume_controller enter_warming reset_algorithms
start_or_resume_controller-Sound exp_m1 at expected others_warm l stopped s =
    run_on_keeps Sound (check_output_time at l) _ (check_output_time-Sound at l s) λ _ m k.
      check_known Sound
        (guard (same_state m.control.state expected)
          (Error.controller ControllerError.invalid_controller_state))
        m _ k
        λ u e.
          let i = before_start expected m stopped k (guard_passed _ _ u e) in
          check_keeps Sound (guard (not others_warm) (Error.output OutputError.busy)) m _ k λ _.
            check_keeps Sound
              (guard (can_prepare m.authority) (Error.controller ControllerError.output_rejected)) m
              _ k
              λ _.
                check_keeps Sound
                  (guard
                    (valid_native_duration m.control.config.max_tick_gap
                      m.control.config.lease_lifetime m.authority)
                    (Error.controller ControllerError.invalid_controller_configuration))
                  m _ k
                  λ _.
                    check_keeps Sound
                      (into_error (control_input m.samples at m.control.config.max_input_age)) m _ k
                      λ x.
                        check_keeps Sound
                          (guard (unit_eq x.unit m.control.config.ema.unit)
                            (Error.controller ControllerError.invalid_controller_configuration))
                          m _ k
                          λ _.
                            run_on_then Idle Sound (into (reference_at at) m) _
                              (reference_at-Idle at m i) (λ n j. j.sound)
                              λ r n j.
                                check_keeps Sound
                                  (guard (unit_eq r.unit x.unit) (
                                    Error.controller
                                      ControllerError.invalid_controller_configuration))
                                  n _ j.sound λ _. filtered-Sound exp_m1 at x n j
