-- ===== src/Output/Frame/Runs.antt =====
-- The frame of acknowledgements and readbacks, of every call and of every history.
use lab_runtime.Base.{
  ℕ, Bool, true, false, inl, inr, arith, F64, f64_eq, Option-cases, List, [], ◌∷◌,
}
use lab_runtime.Output.Types.{DispatchId, DispatchOutcome, OutputReadbackFailure}
use lab_runtime.Output.Authority.{OutputAuthority}
use lab_runtime.Output.Readback.{
  acknowledge_transport, complete_transport_readback, complete_transport_readback_exact,
  fail_transport_readback, complete_transport, settle_readback, set_reported, set_readback_failure,
}
use lab_runtime.Output.Commands.{
  OutputCommand, bind_profile, request_safe_output, acquire_lease, renew_manual, release, trip,
  acknowledge_fault, propose_value, begin_dispatch, complete_dispatch, tick, command, Op, commands,
  ticks, renews, reserves, begins, aborts, fails, loses, acknowledges, reads_back, reads_back_exact,
  fails_readback, completes, tracks, track_manual_attempt, step, run,
}
use lab_runtime.Output.Invariant.{Inv}
use lab_runtime.Output.Invariant.Runs.{step-Inv}
use lab_runtime.Output.Frame.{Frame, Frame-refl, Frame-trans}
use lab_runtime.Output.Frame.Methods.{
  watchdog-Frame, safe_with_profile-Frame, release_lease-Frame, acknowledge-Frame, bind-Frame,
  acquire-Frame, renew_native-Frame, renew_manual_lease-Frame, propose-Frame, begin-Frame,
  reserve_transport-Frame, begin_transport-Frame, abort_transport-Frame,
  fail_transport_before_send-Frame, complete-Frame, transport_uncertain-Frame,
}

acknowledge_transport-Frame :
    (id : DispatchId) (at : ℕ) (a : OutputAuthority) → Frame a (acknowledge_transport id at a).1
unfolding acknowledge_transport
acknowledge_transport-Frame id at a = ground (arith, Frame-refl a)

set_reported-Frame : (x : F64) (at : ℕ) (a : OutputAuthority) → Frame a (set_reported x at a)
unfolding set_reported
set_reported-Frame x at a = ground arith

set_readback_failure-Frame :
    (f : OutputReadbackFailure) (a : OutputAuthority) → Frame a (set_readback_failure f a)
unfolding set_readback_failure
set_readback_failure-Frame f a = ground arith

settle_readback-Frame :
    (id : DispatchId) (matched : Bool) (at : ℕ) (a : OutputAuthority)
    → Frame a (settle_readback id matched at a).1
unfolding settle_readback
settle_readback-Frame id true at a = complete-Frame id _ at a
settle_readback-Frame id false at a =
    Frame-trans (set_readback_failure-Frame _ a) (complete-Frame id _ at _)

complete_transport_readback_exact-Frame :
    (id : DispatchId) (x : F64) (matched : Bool) (at : ℕ) (a : OutputAuthority)
    → Frame a (complete_transport_readback_exact id x matched at a).1
unfolding complete_transport_readback_exact
complete_transport_readback_exact-Frame id x matched at a = ground (
  arith,
  Frame-refl a,
  Frame-trans {a = a} (set_reported-Frame x at a)
      (settle_readback-Frame id matched at (set_reported x at a)),
)

complete_transport_readback-Frame :
    (id : DispatchId) (x : F64) (at : ℕ) (a : OutputAuthority)
    → Frame a (complete_transport_readback id x at a).1
unfolding complete_transport_readback
complete_transport_readback-Frame id x at a = elim (Option-cases a.snapshot.in_flight) [
  | inl e ↦ ground (arith, Frame-refl a)
  | inr (d, e) ↦
      ground (arith, complete_transport_readback_exact-Frame id x (f64_eq x d.value) at a)
]

fail_transport_readback-Frame :
    (id : DispatchId) (at : ℕ) (a : OutputAuthority) → Frame a (fail_transport_readback id at a).1
unfolding fail_transport_readback
fail_transport_readback-Frame id at a = ground (
  arith,
  Frame-trans {a = a} (set_readback_failure-Frame OutputReadbackFailure.unavailable a) (
      complete-Frame id DispatchOutcome.ambiguous at
        (set_readback_failure OutputReadbackFailure.unavailable a)),
)

complete_transport-Frame :
    (id : DispatchId) (outcome : DispatchOutcome) (at : ℕ) (a : OutputAuthority)
    → Frame a (complete_transport id outcome at a).1
unfolding complete_transport
complete_transport-Frame id outcome at a = ground (arith, complete-Frame id outcome at a)

command-Frame :
    (c : OutputCommand) (at : ℕ) (a : OutputAuthority) → Inv a → Frame a (command c at a).1
unfolding command
command-Frame (bind_profile p) at a v = bind-Frame p a
command-Frame request_safe_output at a v = safe_with_profile-Frame _ a
command-Frame (acquire_lease owner lifetime) at a v = acquire-Frame owner lifetime at a
command-Frame (renew_manual l lifetime) at a v = renew_manual_lease-Frame l lifetime at a
command-Frame (release l) at a v = release_lease-Frame l at a
command-Frame trip at a v = safe_with_profile-Frame _ a
command-Frame acknowledge_fault at a v = acknowledge-Frame a
command-Frame (propose_value q) at a v = propose-Frame q at a
command-Frame begin_dispatch at a v = begin-Frame at a v
command-Frame (complete_dispatch id outcome) at a v = complete-Frame id outcome at a
command-Frame tick at a v = Frame-refl a

pub step-Frame : (a : OutputAuthority) (o : Op) → Inv a → Frame a (step a o)
unfolding step track_manual_attempt
step-Frame a (commands c at) v = command-Frame c at a v
step-Frame a (ticks at) v = watchdog-Frame at a
step-Frame a (renews l lifetime at) v = renew_native-Frame l lifetime at a
step-Frame a (reserves at r) v = reserve_transport-Frame at r a
step-Frame a (begins i at) v = begin_transport-Frame i at a v
step-Frame a (aborts i) v = abort_transport-Frame i a
step-Frame a (fails i) v = fail_transport_before_send-Frame i a
step-Frame a (loses id) v = transport_uncertain-Frame id a
step-Frame a (acknowledges id at) v = acknowledge_transport-Frame id at a
step-Frame a (reads_back id x at) v = complete_transport_readback-Frame id x at a
step-Frame a (reads_back_exact id x matched at) v =
    complete_transport_readback_exact-Frame id x matched at a
step-Frame a (fails_readback id at) v = fail_transport_readback-Frame id at a
step-Frame a (completes id outcome at) v = complete_transport-Frame id outcome at a
step-Frame a (tracks id simulated) v = ground (arith, Frame-refl a)

-- Over any history epochs and dispatch numbers only grow, a lease at the end is a renewal of the
-- first one or younger, and an authority that is blocked after an ambiguous safe write stays so
-- and sends nothing.
pub run-Frame : (os : List Op) (a : OutputAuthority) → Inv a → Frame a (run a os)
unfolding run
run-Frame [] a v = Frame-refl a
run-Frame (o ∷ os) a v = Frame-trans (step-Frame a o v) (run-Frame os (step a o) (step-Inv a o v))
