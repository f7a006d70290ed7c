-- ===== src/Lifecycle/Running.antt =====
-- crates/lab-core/src/runtime/controllers.rs: ticks and configurations keep the loop sound.
use lab_runtime.Base.{
  ℕ, ◌≤◌, ◌≡◌, inl, inr, refl, sym, ap, subst, ◌∙◌, Bool, true, false, ◌&&◌, not, Option, none,
  some, is_some, Result, ok, err, guard, ok_or, arith, Result-cases, OnSome, run_on_keeps,
  check_keeps, check_known, guard_passed, checked_add, ◌==◌, u64_eq,
}
use lab_runtime.Model.{Error, ControllerError}
use lab_runtime.Output.Types.{OutputLease}
use lab_runtime.Output.Authority.{OutputAuthority}
use lab_runtime.Output.Lifecycle.{renew_native, renew}
use lab_runtime.Output.Queries.{accepts_pid_limits}
use lab_runtime.Control.Pid
use lab_runtime.Control.Pid.{Pid, PidConfig, is_valid_config}
use lab_runtime.Control.Limits.{new-Sound}
use lab_runtime.Processing.Ema
use lab_runtime.Processing.Ema.{Ema}
use lab_runtime.Control.Native.{
  NativeController, NativeControllerConfig, ControllerState, reset_algorithms, replace_error,
  new_controller,
}
use lab_runtime.Lifecycle.Loop.{Loop, set_control, check_output_time}
use lab_runtime.Lifecycle.Proposal.{Draft, calculate}
use lab_runtime.Lifecycle.Stopping.{Executor}
use lab_runtime.Lifecycle.Starting.{is_seen, into_error}
use lab_runtime.Lifecycle.Ticking.{
  Surroundings, proposal_of, deliver, renewal, settle_tick, fail_tick, renewed, delivered,
  propose_with, calculated, tick_running, tick_in, is_active, tick_controller,
}
use lab_runtime.Lifecycle.Configuring.{
  is_stopped, may_change, install_pid, configure_controller_pid, same_bindings, install_controller,
  reconfigure_controller,
}
use lab_runtime.Lifecycle.Sound.{Sound, GoodPid, is_running, check_output_time-Sound}
use lab_runtime.Lifecycle.Kept.{calculate-Kept}
use lab_runtime.Lifecycle.Preserving.{
  idle-Sound, reset-GoodPid, fail_controller-Sound, lease_of_stopped,
}
use lab_runtime.Lifecycle.Entering.{advance_warming-Sound}
use lab_runtime.Lifecycle.Failing.{Holding, deliver-Holding, renewal-Holding}

renewed_epoch :
    (held m : OutputLease) (lifetime at : ℕ) (a : OutputAuthority)
    → (renew_native held lifetime at a).0 ≡ ok m
    → m.epoch ≡ held.epoch
unfolding renew_native renew
renewed_epoch held m lifetime at a h = ground arith

renewal_epoch :
    (physical : Bool) (held m : OutputLease) (at : ℕ) (l : Loop)
    → (renewal physical held at l).0 ≡ ok m
    → m.epoch ≡ held.epoch
unfolding renewal
renewal_epoch true held m at l h = ground (arith, h)
renewal_epoch false held m at l h =
    renewed_epoch held m l.control.config.lease_lifetime at l.authority h

fail_tick-Sound :
    (e : Error) (at : ℕ) (x : Executor) (l : Loop) → Sound l → Sound (fail_tick e at x l).1
unfolding fail_tick
fail_tick-Sound e at x l s = fail_controller-Sound at x l s

settled-Sound :
    (physical : Bool) (m lease : OutputLease) (at : ℕ) (d : Draft) (l : Loop)
    → Holding lease l
    → m.epoch ≡ lease.epoch
    → Sound (set_control (settle_tick physical m at d) l)
unfolding settle_tick
settled-Sound physical m lease at d l h same = record {
  authority_inv = h.sound.authority_inv;
  lease_running = ap is_some (sym h.own) ∙ h.sound.lease_running;
  lease_past =
      let past : lease.epoch ≤ l.authority.snapshot.epoch =
        subst (OnSome (λ (k : OutputLease). k.epoch ≤ l.authority.snapshot.epoch)) h.own
          h.sound.lease_past in
      omega (arith, past, same);
  pid_good = h.sound.pid_good;
}

module _ (s : Surroundings) (at : ℕ) where
  renewed-Sound :
      (lease : OutputLease) (d : Draft) (r : Result Error OutputLease × Loop)
      → Holding lease r.1
      → ((m : OutputLease) → r.0 ≡ ok m → m.epoch ≡ lease.epoch)
      → Sound (renewed s at d r).1
  unfolding renewed
  renewed-Sound lease d (ok m, l) h same = settled-Sound s.physical m lease at d l h (same m refl)
  renewed-Sound lease d (err e, l) h same =
      fail_tick-Sound (Error.controller ControllerError.output_rejected) at s.settling l h.sound

  delivered-Sound :
      (lease : OutputLease) (d : Draft) (r : Result Error (Unit {0}) × Loop)
      → Holding lease r.1
      → Sound (delivered s at lease d r).1
  unfolding delivered
  delivered-Sound lease d (ok u, l) h =
      renewed-Sound lease d (renewal s.physical lease at l)
        (renewal-Holding lease lease s.physical at l h)
        (λ m e. renewal_epoch s.physical lease m at l e)
  delivered-Sound lease d (err e, l) h =
      fail_tick-Sound (Error.controller ControllerError.output_rejected) at s.settling l h.sound

  propose_with-Sound :
      (d : Draft) (o : Option OutputLease) (l : Loop)
      → o ≡ l.control.lease
      → Sound l
      → Sound (propose_with s at d o l).1
  unfolding propose_with
  propose_with-Sound d none l e k =
      fail_tick-Sound (Error.controller ControllerError.output_rejected) at s.settling l k
  propose_with-Sound d (some lease) l e k =
      delivered-Sound lease d (deliver s.attempt (proposal_of lease d) at s.delivery l) (
        deliver-Holding lease s.attempt (proposal_of lease d) at s.delivery l
          (record { sound = k; own = sym e }))

  calculated-Sound :
      (r : Result ControllerError Draft × Loop) → Sound r.1 → Sound (calculated s at r).1
  unfolding calculated
  calculated-Sound (ok d, l) k = propose_with-Sound d l.control.lease l refl k
  calculated-Sound (err e, l) k = fail_tick-Sound (Error.controller e) at s.settling l k

  tick_in-Sound :
      (st : ControllerState) (l : Loop)
      → st ≡ l.control.state
      → Sound l
      → Sound (tick_in st s at l).1
  unfolding tick_in tick_running is_running
  tick_in-Sound ControllerState.running l e k =
      calculated-Sound (calculate s.exp_m1 s.output_unit at l)
        (calculate-Kept s.exp_m1 s.output_unit at l k).sound
  tick_in-Sound ControllerState.warming l e k = advance_warming-Sound s.exp_m1 at l (record {
    sound = k;
    empty = lease_of_stopped l k (sym (ap is_running e));
    stopped = sym (ap is_running e);
  })
  tick_in-Sound ControllerState.created l e k = k
  tick_in-Sound ControllerState.ready l e k = k
  tick_in-Sound ControllerState.paused l e k = k
  tick_in-Sound ControllerState.failed l e k = k

  pub tick_controller-Sound : (l : Loop) → Sound l → Sound (tick_controller s at l).1
  unfolding tick_controller
  tick_controller-Sound l k =
      run_on_keeps Sound (check_output_time at l) _ (check_output_time-Sound at l k) λ _ m j.
        check_keeps Sound
          (guard (is_active m.control.state)
            (Error.controller ControllerError.invalid_controller_state))
          m _ j
          λ _.
            check_keeps Sound
              (guard (not (is_seen at m.control.last_tick))
                (Error.controller ControllerError.invalid_tick_time))
              m _ j λ _. tick_in-Sound m.control.state m refl j

made-GoodPid : (k : PidConfig) (p : Pid) → Pid.new k ≡ ok p → GoodPid p
made-GoodPid k p h =
    let (s, valid) = new-Sound k p h in
    record { valid = ap is_valid_config s.config_kept ∙ valid; paired = s.paired }

made_ok : {E F A : Type 0} (f : F) (r : Result E A) (a : A) → replace_error f r ≡ ok a → r ≡ ok a
made_ok f (ok b) a h = ground (arith, h)
made_ok f (err e) a h = absurd (ground arith)

stopped_running : (st : ControllerState) → is_stopped st ≡ true → is_running st ≡ false
unfolding is_stopped is_running
stopped_running st h = ground arith

may_change_idle :
    (others_warm : Bool) (c : NativeController)
    → may_change others_warm c ≡ true
    → (c.lease ≡ none) × (is_stopped c.state ≡ true)
unfolding may_change
may_change_idle others_warm c h = ground arith

pub configure_controller_pid-Sound :
    (k : PidConfig) (expected : ℕ) (others_warm : Bool) (l : Loop)
    → Sound l
    → Sound (configure_controller_pid k expected others_warm l).1
unfolding configure_controller_pid install_pid reset_algorithms
configure_controller_pid-Sound k expected others_warm l s =
    check_keeps Sound
      (guard (l.control.config_revision == expected)
        (Error.controller ControllerError.controller_revision_conflict))
      l _ s
      λ _.
        check_known Sound
          (guard (may_change others_warm l.control)
            (Error.controller ControllerError.invalid_controller_state))
          l _ s
          λ u e.
            let (empty, stopped) = may_change_idle others_warm l.control (guard_passed _ _ u e) in
            check_keeps Sound
              (ok_or (checked_add l.control.config_revision 1)
                (Error.controller ControllerError.controller_revision_exhausted))
              l _ s
              λ next.
                check_known Sound
                  (replace_error (Error.controller ControllerError.invalid_controller_configuration)
                    (Pid.new k))
                  l _ s
                  λ p made.
                    check_keeps Sound
                      (guard (accepts_pid_limits k.output_min k.output_max l.authority)
                        (Error.controller ControllerError.output_rejected))
                      l _ s
                      λ _.
                        idle-Sound l (install_pid p k next l.control) s empty
                          (stopped_running l.control.state stopped)
                          (reset-GoodPid p (made-GoodPid k p (made_ok _ (Pid.new k) p made)))

into_error_ok : {A : Type 0} (r : Result ControllerError A) (a : A) → into_error r ≡ ok a → r ≡ ok a
into_error_ok (ok b) a h = ground (arith, h)
into_error_ok (err e) a h = absurd (ground arith)

-- A new controller holds nothing, and its algorithm is well-formed.
pub record NewController (k : NativeControllerConfig) (c : NativeController) : Type 0 where
  pub empty : c.lease ≡ none
  pub created : c.state ≡ ControllerState.created
  pub made : Pid.new k.pid ≡ ok c.pid

new_controller_made :
    (k : NativeControllerConfig) (c : NativeController)
    → new_controller k ≡ ok c
    → NewController k c
unfolding new_controller
new_controller_made k c h = elim (Result-cases (Ema.new k.ema)) [
  | inl (x, f) ↦ elim (Result-cases (Pid.new k.pid)) [
    | inl (p, e) ↦ ground (arith, e, f)
    | inr (b, e) ↦ ground (arith, e, f)
  ]
  | inr (b, f) ↦ ground (arith, f)
]

pub new_controller_idle :
    (k : NativeControllerConfig) (c : NativeController)
    → new_controller k ≡ ok c
    → (c.lease ≡ none) × (is_running c.state ≡ false) × GoodPid c.pid
unfolding is_running
new_controller_idle k c h =
    let n = new_controller_made k c h in
    (n.empty, ap is_running n.created, made-GoodPid k.pid c.pid n.made)

pub reconfigure_controller-Sound :
    (k : NativeControllerConfig) (expected : ℕ) (others_warm : Bool)
    (valid : Result Error (Unit {0})) (l : Loop)
    → Sound l
    → Sound (reconfigure_controller k expected others_warm valid l).1
unfolding reconfigure_controller install_controller
reconfigure_controller-Sound k expected others_warm valid l s =
    check_keeps Sound
      (guard (l.control.config_revision == expected)
        (Error.controller ControllerError.controller_revision_conflict))
      l _ s
      λ _.
        check_known Sound
          (guard (same_bindings k l.control.config && may_change others_warm l.control)
            (Error.controller ControllerError.invalid_controller_state))
          l _ s
          λ u e.
            let both : (same_bindings k l.control.config && may_change others_warm l.control)
                ≡ true =
              guard_passed _ _ u e in
            let (_, stopped) = may_change_idle others_warm l.control (ground (arith, both)) in
            check_keeps Sound
              (ok_or (checked_add l.control.config_revision 1)
                (Error.controller ControllerError.controller_revision_exhausted))
              l _ s
              λ next. check_known Sound (into_error (new_controller k)) l _ s λ c made.
                check_keeps Sound valid l _ s λ _.
                  let (empty, _, good) =
                    new_controller_idle k c (into_error_ok (new_controller k) c made) in
                  idle-Sound l (install_controller c next l.control) s empty
                    (stopped_running l.control.state stopped) good
