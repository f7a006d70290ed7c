-- ===== src/Lifecycle/Revoking.antt =====
-- crates/lab-core/src/runtime/controllers.rs: a tick that fails ends the permission of its controller.
use lab_runtime.Base.{
  ℕ, ◌≤◌, ◌≡◌, ◌≢◌, ◌⊎◌, inl, inr, refl, ap, subst, ◌∙◌, true, false, ◌||◌, none, some, arith,
  Bool-cases, Option-cases, OnSome, checked_add, run_on_keeps,
}
use lab_runtime.Output.Types.{OutputLease, is_lease, lease_eq_iff}
use lab_runtime.Output.Authority.{OutputAuthority, request_safe}
use lab_runtime.Output.Commands.{OutputCommand, command, safe_with_profile}
use lab_runtime.Output.Invariant.{Inv}
use lab_runtime.Output.Invariant.Runs.{command-Inv, run-Inv}
use lab_runtime.Output.Frame.Runs.{run-Frame}
use lab_runtime.Output.Safety.{Outdated, Frame-Outdated}
use lab_runtime.Control.Native.{NativeController, ControllerState}
use lab_runtime.Lifecycle.Loop.{Loop, on_authority, set_control}
use lab_runtime.Lifecycle.Stopping.{
  Executor, execute, stop_with, holds, left_by_watchdog, trip_and_settle, fail_controller,
}
use lab_runtime.Lifecycle.Sound.{Sound}

-- A lease that is current is of the current epoch, so a trip outdates it.
trip-Outdated :
    (e at : ℕ) (a : OutputAuthority)
    → Inv a
    → e ≤ a.snapshot.epoch
    → (l : OutputLease) → (a.snapshot.lease ≡ some l) ⊎ (a.snapshot.lease ≡ none)
    → Outdated e (command OutputCommand.trip at a).1
unfolding command safe_with_profile request_safe checked_add
trip-Outdated e at a v older l (inl held) = ground (arith, v.leased_profiled)
trip-Outdated e at a v older l (inr free) = ground arith

settled-Outdated :
    (e at : ℕ) (x : Executor) (l : Loop)
    → Inv (command OutputCommand.trip at l.authority).1
    → Outdated e (command OutputCommand.trip at l.authority).1
    → Outdated e (trip_and_settle at x l).1.authority
unfolding trip_and_settle execute
settled-Outdated e at x l inv old =
    (run_on_keeps (λ (m : Loop). Inv m.authority × Outdated e m.authority)
      (on_authority (command OutputCommand.trip at) l) (λ _. execute x) (inv, old)
      (λ _ m (i, o). (
        run-Inv x.operations m.authority i,
        Frame-Outdated e (run-Frame x.operations m.authority i) o,
      ))).1

-- The controller has failed, holds nothing, and its former lease is not the authority's.
pub record Revoked (lease : OutputLease) (l : Loop) : Type 0 where
  pub failed : l.control.state ≡ ControllerState.failed
  pub empty : l.control.lease ≡ none
  pub gone : l.authority.snapshot.lease ≢ some lease

older_lease_differs :
    (lease : OutputLease) (a : OutputAuthority)
    → Outdated lease.epoch a
    → a.snapshot.lease ≢ some lease
older_lease_differs lease a o h = ground (arith, o, h)

trip_keeps_control :
    (at : ℕ) (x : Executor) (l : Loop) → (trip_and_settle at x l).1.control ≡ l.control
unfolding trip_and_settle execute
trip_keeps_control at x l =
    run_on_keeps (λ (m : Loop). m.control ≡ l.control)
      (on_authority (command OutputCommand.trip at) l) (λ _. execute x) refl (λ _ m h. h)

-- Which lease the authority has where the failing controller may act on it.
may_act :
    (lease : OutputLease) (a : OutputAuthority)
    → (holds (some lease) a || left_by_watchdog a) ≡ true
    → (a.snapshot.lease ≡ some lease) ⊎ (a.snapshot.lease ≡ none)
unfolding holds left_by_watchdog is_lease
may_act lease a h = elim (Option-cases a.snapshot.lease) [
  | inl e ↦ inr e
  | inr (m, e) ↦
      inl (e ∙ ap some ((lease_eq_iff m lease).0 (let h' = rw e at h in ground (arith, h'))))
]

not_held :
    (lease : OutputLease) (a : OutputAuthority)
    → (holds (some lease) a || left_by_watchdog a) ≡ false
    → a.snapshot.lease ≢ some lease
unfolding holds left_by_watchdog is_lease
not_held lease a h e =
    let h' = rw e at h in let same = (lease_eq_iff lease lease).1 refl in ground (arith, h', same)

pub fail_controller-Revoked :
    (at : ℕ) (x : Executor) (l : Loop) (lease : OutputLease)
    → Sound l
    → l.control.lease ≡ some lease
    → Revoked lease (fail_controller at x l).1
unfolding fail_controller stop_with
fail_controller-Revoked at x l lease s own =
    elim (Bool-cases (holds (some lease) l.authority || left_by_watchdog l.authority)) [
      | inl e ↦
          let stopped = set_control (stop_with ControllerState.failed) l in
          let past : lease.epoch ≤ l.authority.snapshot.epoch =
            subst (OnSome (λ (m : OutputLease). m.epoch ≤ l.authority.snapshot.epoch)) own
              s.lease_past in
          let inv = command-Inv OutputCommand.trip at l.authority s.authority_inv in
          let old =
            trip-Outdated lease.epoch at l.authority s.authority_inv past lease
              (may_act lease l.authority e) in
          rw (own, e)
            (record {
              failed = ap (λ (c : NativeController). c.state) (trip_keeps_control at x stopped);
              empty = ap (λ (c : NativeController). c.lease) (trip_keeps_control at x stopped);
              gone =
                  older_lease_differs lease (trip_and_settle at x stopped).1.authority
                    (settled-Outdated lease.epoch at x stopped inv old);
            })
      | inr e ↦
          rw (own, e) (record { failed = refl; empty = refl; gone = not_held lease l.authority e })
    ]
