-- ===== src/Lifecycle/Failing.antt =====
-- crates/lab-core/src/runtime/controllers.rs: every error of a running tick revokes.
use lab_runtime.Base.{
  ℕ, ◌≡◌, ◌∙◌, Bool, true, false, Option, none, some, Result, ok, err, arith, run_on_keeps,
  check_keeps,
}
use lab_runtime.Model.{Error, ControllerError}
use lab_runtime.Output.Types.{OutputLease}
use lab_runtime.Output.Lifecycle.{OutputProposal, renew_native}
use lab_runtime.Output.Commands.{OutputCommand, Op, command, step}
use lab_runtime.Output.Invariant.Runs.{step-Inv}
use lab_runtime.Output.Frame.Runs.{step-Frame}
use lab_runtime.Lifecycle.Loop.{Loop, on_authority}
use lab_runtime.Lifecycle.Proposal.{Draft, calculate}
use lab_runtime.Lifecycle.Stopping.{Executor, execute}
use lab_runtime.Lifecycle.Ticking.{
  Surroundings, proposal_of, deliver, renewal, fail_tick, renewed, delivered, propose_with,
  calculated, tick_running,
}
use lab_runtime.Lifecycle.Sound.{Sound, moved-Sound, command-Sound, execute-Sound}
use lab_runtime.Lifecycle.Kept.{calculate-Kept}
use lab_runtime.Lifecycle.Revoking.{Revoked, fail_controller-Revoked}

-- The loop is sound and its controller holds `lease`.
pub record Holding (lease : OutputLease) (l : Loop) : Type 0 where
  pub sound : Sound l
  pub own : l.control.lease ≡ some lease

fail_tick-Revoked :
    (e : Error) (at : ℕ) (x : Executor) (l : Loop) (lease : OutputLease)
    → Holding lease l
    → Revoked lease (fail_tick e at x l).1
unfolding fail_tick
fail_tick-Revoked e at x l lease h = fail_controller-Revoked at x l lease h.sound h.own

pub execute-Holding :
    (lease : OutputLease) (x : Executor) (l : Loop)
    → Holding lease l
    → Holding lease (execute x l).1
unfolding execute
execute-Holding lease x l h = record { sound = execute_sound x l h.sound; own = h.own }
  where
    execute_sound : (x : Executor) (l : Loop) → Sound l → Sound (execute x l).1
    execute_sound x l s = execute-Sound x l s

pub deliver-Holding :
    (lease : OutputLease) (attempt : Result Error (Unit {0})) (q : OutputProposal) (at : ℕ)
    (x : Executor) (l : Loop)
    → Holding lease l
    → Holding lease (deliver attempt q at x l).1
unfolding deliver
deliver-Holding lease attempt q at x l h = check_keeps (Holding lease) attempt l _ h λ _.
    run_on_keeps (Holding lease) (on_authority (command (OutputCommand.propose_value q) at) l)
      (λ _. execute x)
      (record { sound = command-Sound (OutputCommand.propose_value q) at l h.sound; own = h.own })
      (λ _ m k. execute-Holding lease x m k)

pub renewal-Holding :
    (lease held : OutputLease) (physical : Bool) (at : ℕ) (l : Loop)
    → Holding lease l
    → Holding lease (renewal physical held at l).1
unfolding renewal step
renewal-Holding lease held true at l h = h
renewal-Holding lease held false at l h = record {
  sound =
      moved-Sound l (renew_native held l.control.config.lease_lifetime at l.authority).1 h.sound
        (step-Inv l.authority (Op.renews held l.control.config.lease_lifetime at)
          h.sound.authority_inv)
        (step-Frame l.authority (Op.renews held l.control.config.lease_lifetime at)
          h.sound.authority_inv);
  own = h.own;
}

module _ (s : Surroundings) (at : ℕ) (lease : OutputLease) where
  renewed-Revoked :
      (d : Draft) (r : Result Error OutputLease × Loop) (e : Error)
      → Holding lease r.1
      → (renewed s at d r).0 ≡ err e
      → Revoked lease (renewed s at d r).1
  unfolding renewed
  renewed-Revoked d (ok m, l) e h failed = absurd (ground (arith, failed))
  renewed-Revoked d (err b, l) e h failed =
      fail_tick-Revoked (Error.controller ControllerError.output_rejected) at s.settling l lease h

  delivered-Revoked :
      (held : OutputLease) (d : Draft) (r : Result Error (Unit {0}) × Loop) (e : Error)
      → Holding lease r.1
      → (delivered s at held d r).0 ≡ err e
      → Revoked lease (delivered s at held d r).1
  unfolding delivered
  delivered-Revoked held d (ok u, l) e h failed =
      renewed-Revoked d (renewal s.physical held at l) e
        (renewal-Holding lease held s.physical at l h) failed
  delivered-Revoked held d (err b, l) e h failed =
      fail_tick-Revoked (Error.controller ControllerError.output_rejected) at s.settling l lease h

  propose_with-Revoked :
      (d : Draft) (o : Option OutputLease) (l : Loop) (e : Error)
      → Holding lease l
      → (propose_with s at d o l).0 ≡ err e
      → Revoked lease (propose_with s at d o l).1
  unfolding propose_with
  propose_with-Revoked d none l e h failed =
      fail_tick-Revoked (Error.controller ControllerError.output_rejected) at s.settling l lease h
  propose_with-Revoked d (some held) l e h failed =
      delivered-Revoked held d (deliver s.attempt (proposal_of held d) at s.delivery l) e
        (deliver-Holding lease s.attempt (proposal_of held d) at s.delivery l h) failed

  calculated-Revoked :
      (r : Result ControllerError Draft × Loop) (e : Error)
      → Holding lease r.1
      → (calculated s at r).0 ≡ err e
      → Revoked lease (calculated s at r).1
  unfolding calculated
  calculated-Revoked (ok d, l) e h failed = propose_with-Revoked d l.control.lease l e h failed
  calculated-Revoked (err b, l) e h failed =
      fail_tick-Revoked (Error.controller b) at s.settling l lease h

-- A running tick that returns an error, of the input, the algorithm, the reference, the proposal, its
-- delivery or the renewal, has failed its controller and taken its lease: the controller holds none,
-- and the authority has not that lease any more.
pub failed_tick_revokes :
    (s : Surroundings) (at : ℕ) (l : Loop) (lease : OutputLease) (e : Error)
    → Sound l
    → l.control.lease ≡ some lease
    → (tick_running s at l).0 ≡ err e
    → Revoked lease (tick_running s at l).1
unfolding tick_running
failed_tick_revokes s at l lease e sound own failed =
    let k = calculate-Kept s.exp_m1 s.output_unit at l sound in
    calculated-Revoked s at lease (calculate s.exp_m1 s.output_unit at l) e
      (record { sound = k.sound; own = k.lease_kept ∙ own }) failed
