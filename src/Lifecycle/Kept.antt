-- ===== src/Lifecycle/Kept.antt =====
-- crates/lab-core/src/runtime/controllers.rs: what the calculation of a tick leaves alone.
use lab_runtime.Base.{
  ℕ, ◌≡◌, refl, sym, subst, ◌∙◌, F64, Result, ok, err, run_on_keeps, check_keeps, guard, ok_or,
}
use lab_runtime.Model.{EngineeringUnit, unit_eq, ControllerError}
use lab_runtime.Control.Pid
use lab_runtime.Control.Pid.{Pid, PidError, PidUpdate, is_valid_config, remember}
use lab_runtime.Control.Limits.{Paired, Updating, update-Updating}
use lab_runtime.Control.Native.{NativeController}
use lab_runtime.Lifecycle.Loop.{Loop}
use lab_runtime.Lifecycle.Input.{Input, control_input}
use lab_runtime.Lifecycle.Proposal.{
  reference_at, filter, regulate, within_gap, own_lease, is_ready, calculate,
}
use lab_runtime.Lifecycle.Sound.{Sound, GoodPid}

-- From `l` a sound loop has come to `m` with the authority, and the lease and the state of its
-- controller as they were.
pub record Kept (l m : Loop) : Type 0 where
  pub sound : Sound m
  pub lease_kept : m.control.lease ≡ l.control.lease
  pub state_kept : m.control.state ≡ l.control.state
  pub authority_kept : m.authority ≡ l.authority

-- A change of the controller that touches neither lease nor state.
pub control-Kept :
    (l m : Loop) (c : NativeController)
    → c.lease ≡ m.control.lease
    → c.state ≡ m.control.state
    → GoodPid c.pid
    → Kept l m
    → Kept l (record m { control = c })
control-Kept l m c same_lease same_state good k = record {
  sound = record {
    authority_inv = k.sound.authority_inv;
    lease_running = rw (same_lease, same_state) k.sound.lease_running;
    lease_past = rw same_lease k.sound.lease_past;
    pid_good = good;
  };
  lease_kept = same_lease ∙ k.lease_kept;
  state_kept = same_state ∙ k.state_kept;
  authority_kept = k.authority_kept;
}

pub reference_at-Kept : (l m : Loop) (at : ℕ) → Kept l m → Kept l (reference_at at m).1
unfolding reference_at
reference_at-Kept l m at k = record {
  sound = record {
    authority_inv = k.sound.authority_inv;
    lease_running = k.sound.lease_running;
    lease_past = k.sound.lease_past;
    pid_good = k.sound.pid_good;
  };
  lease_kept = k.lease_kept;
  state_kept = k.state_kept;
  authority_kept = k.authority_kept;
}

pub filter-Kept :
    (exp_m1 : F64 → F64) (l m : Loop) (i : Input) → Kept l m → Kept l (filter exp_m1 i m).1
unfolding filter
filter-Kept exp_m1 l m i k = control-Kept l m _ refl refl k.sound.pid_good k

updated-GoodPid :
    (x : Pid) (measurement setpoint : F64) (at : ℕ) (r : Result PidError PidUpdate × Pid)
    → GoodPid x
    → Updating x measurement setpoint at r
    → GoodPid r.1
unfolding Updating remember Paired
updated-GoodPid x measurement setpoint at (ok u, x') g told =
    subst GoodPid (sym told.remembered) (record { valid = g.valid; paired = tt })
updated-GoodPid x measurement setpoint at (err e, x') g told = subst GoodPid (sym told.1) g

regulate-Kept : (l m : Loop) (x r : F64) (at : ℕ) → Kept l m → Kept l (regulate x r at m).1
unfolding regulate
regulate-Kept l m x r at k =
    control-Kept l m _ refl refl
      (updated-GoodPid m.control.pid x r at (Pid.update x r at m.control.pid) k.sound.pid_good
        (update-Updating m.control.pid x r at k.sound.pid_good.valid k.sound.pid_good.paired))
      k

pub calculate-Kept :
    (exp_m1 : F64 → F64) (output_unit : Result ControllerError EngineeringUnit) (at : ℕ) (l : Loop)
    → Sound l
    → Kept l (calculate exp_m1 output_unit at l).1
unfolding calculate
calculate-Kept exp_m1 output_unit at l s =
    check_keeps (Kept l) (within_gap at l.control.last_tick l.control.config.max_tick_gap) l _ start
      λ _. check_keeps (Kept l) (own_lease at l) l _ start λ lease.
        check_keeps (Kept l) (control_input l.samples at l.control.config.max_input_age) l _ start
          λ i.
            run_on_keeps (Kept l) (reference_at at l) _ (reference_at-Kept l l at start) λ r l3 k3.
              check_keeps (Kept l)
                (guard (unit_eq r.unit i.unit) ControllerError.invalid_controller_configuration) l3
                _ k3
                λ _.
                  run_on_keeps (Kept l) (filter exp_m1 i l3) _ (filter-Kept exp_m1 l l3 i k3)
                    λ e l5 k5.
                      check_keeps (Kept l) (guard (is_ready e.status) ControllerError.algorithm) l5
                        _ k5
                        λ _.
                          check_keeps (Kept l) (ok_or e.value ControllerError.algorithm) l5 _ k5
                            λ x.
                              run_on_keeps (Kept l) (regulate x r.value at l5) _
                                (regulate-Kept l l5 x r.value at k5) λ u l8 k8. k8
  where
    start : Kept l l
    start = record { sound = s; lease_kept = refl; state_kept = refl; authority_kept = refl }
