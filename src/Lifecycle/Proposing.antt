-- ===== src/Lifecycle/Proposing.antt =====
-- crates/lab-core/src/runtime/controllers.rs: the proposal that a running tick hands to the authority.
use lab_runtime.Base.{
  ℕ, ◌≡◌, ◌⊎◌, inl, inr, refl, sym, ap, subst, Act, ◌∙◌, false, Option, some, F64, Result, ok, err,
  run_on, arith,
}
use lab_runtime.Model.{Error, ControllerError, Value}
use lab_runtime.Output.Types.{OutputLease}
use lab_runtime.Output.Lifecycle.{OutputProposal}
use lab_runtime.Output.Commands.{OutputCommand, command}
use lab_runtime.Lifecycle.Loop.{Loop, on_authority, check_output_time}
use lab_runtime.Control.Native.{ControllerState}
use lab_runtime.Lifecycle.Starting.{is_seen}
use lab_runtime.Lifecycle.Proposal.{Draft, calculate}
use lab_runtime.Lifecycle.Stopping.{execute, fail_controller}
use lab_runtime.Lifecycle.Ticking.{
  Surroundings, proposal_of, deliver, delivered, propose_with, calculated, tick_running, fail_tick,
  is_active, tick_in, tick_controller,
}
use lab_runtime.Lifecycle.Bounds.{Proposed, calculate-Proposed}
use lab_runtime.Lifecycle.Kept.{Kept, calculate-Kept}
use lab_runtime.Lifecycle.Sound.{Sound}

-- The tick has left the authority of `l` alone until, with a number for its attempt, it gives it the
-- command to propose; what follows is the end of the tick, under the lease of the proposal.
pub record Proposes (s : Surroundings) (at : ℕ) (l : Loop) (r : Result Error (Unit {0}) × Loop)
    : Type 0 where
  pub calculation : Loop
  pub draft : Draft
  pub proposal : OutputProposal
  pub output : F64
  pub untouched : calculation.authority ≡ l.authority
  pub value : proposal.value ≡ Value.float output
  pub bounded : Proposed at l proposal.lease output proposal.ttl
  pub sent :
      r
      ≡ delivered s at proposal.lease draft (
          run_on
            (s.attempt, calculation)
            λ _ m.
              run_on
                (on_authority (command (OutputCommand.propose_value proposal) at) m)
                λ _. execute s.delivery)

-- The tick has failed its controller without a proposal.
pub record Refuses (s : Surroundings) (at : ℕ) (l : Loop) (r : Result Error (Unit {0}) × Loop)
    : Type 0 where
  pub calculation : Loop
  pub reason : ControllerError
  pub untouched : calculation.authority ≡ l.authority
  pub failed : r ≡ (err (Error.controller reason), (fail_controller at s.settling calculation).1)

abbrev pub Ticked : Surroundings → ℕ → Loop → Result Error (Unit {0}) × Loop → Type 0
Ticked s at l r = Proposes s at l r ⊎ Refuses s at l r

propose_with-Proposes :
    (s : Surroundings) (at : ℕ) (l m : Loop) (d : Draft) (lease : OutputLease)
    → m.authority ≡ l.authority
    → m.control.lease ≡ some lease
    → Proposed at l lease d.pid.output d.ttl
    → Proposes s at l (propose_with s at d m.control.lease m)
unfolding propose_with deliver proposal_of
propose_with-Proposes s at l m d lease same held bounded = record {
  calculation = m;
  draft = d;
  proposal = proposal_of lease d;
  output = d.pid.output;
  untouched = same;
  value = refl;
  bounded = bounded;
  sent = ap (λ (o : Option OutputLease). propose_with s at d o m) held;
}

pub tick_running-Ticked :
    (s : Surroundings) (at : ℕ) (l : Loop) → Sound l → Ticked s at l (tick_running s at l)
unfolding tick_running calculated fail_tick
tick_running-Ticked s at l sound =
    by_answer (calculate s.exp_m1 s.output_unit at l) refl
      (calculate-Kept s.exp_m1 s.output_unit at l sound)
  where
    by_answer :
        (r : Result ControllerError Draft × Loop)
        → calculate s.exp_m1 s.output_unit at l ≡ r
        → Kept l r.1
        → Ticked s at l (calculated s at r)
    by_answer (ok d, m) told kept =
        let (lease, bounded) =
          calculate-Proposed s.exp_m1 s.output_unit at l m d sound.pid_good.valid
            sound.pid_good.paired told in
        inl (
          propose_with-Proposes s at l m d lease kept.authority_kept
            (kept.lease_kept ∙ bounded.leased.own) bounded)
    by_answer (err e, m) told kept =
        inr (record { calculation = m; reason = e; untouched = kept.authority_kept; failed = refl })

ok_same : {E A : Type 0} {x y : A} → Path (Result E A) (ok x) (ok y) → x ≡ y
ok_same h = ground (arith, h)

run_on_told {κ} :
    {S E A B : Type 0} (P : Result E B × S → Type κ) (r : Result E A × S) (f : A → Act S E B)
    (a : A)
    → r.0 ≡ ok a
    → P (f a r.1)
    → P (run_on r f)
run_on_told P (ok b, m) f a told p = subst (λ x. P (f x m)) (sym (ok_same told)) p
run_on_told P (err e, m) f a told p = absurd (ground (arith, told))

-- So has a tick that passes its checks, after the watchdog.
pub tick_controller-Ticked :
    (s : Surroundings) (at : ℕ) (l : Loop)
    → Sound (check_output_time at l).1
    → (check_output_time at l).0 ≡ ok tt
    → (check_output_time at l).1.control.state ≡ ControllerState.running
    → is_seen at (check_output_time at l).1.control.last_tick ≡ false
    → Ticked s at (check_output_time at l).1 (tick_controller s at l)
unfolding tick_controller is_active tick_in
tick_controller-Ticked s at l sound timely running unseen =
    run_on_told (Ticked s at (check_output_time at l).1) (check_output_time at l) _ tt timely (
      rw (running, unseen)
        (subst (Ticked s at (check_output_time at l).1)
          (sym (ap (λ (x : ControllerState). tick_in x s at (check_output_time at l).1) running))
          (tick_running-Ticked s at (check_output_time at l).1 sound)))
