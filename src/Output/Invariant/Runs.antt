-- ===== src/Output/Invariant/Runs.antt =====
-- The invariant under every call, and over every history of calls.
use lab_runtime.Base.{ℕ, List, [], ◌∷◌, arith}
use lab_runtime.Output.Authority.{OutputAuthority}
use lab_runtime.Output.Commands.{
  OutputCommand, bind_profile, request_safe_output, acquire_lease, renew_manual, release, trip,
  acknowledge_fault, propose_value, begin_dispatch, complete_dispatch, tick, command, Op, commands,
  ticks, renews, reserves, begins, aborts, fails, loses, acknowledges, reads_back, reads_back_exact,
  fails_readback, completes, tracks, track_manual_attempt, step, run,
}
use lab_runtime.Output.Invariant.{Inv}
use lab_runtime.Output.Invariant.Core.{
  watchdog-Inv, safe_with_profile-Inv, release_lease-Inv, acknowledge-Inv,
}
use lab_runtime.Output.Invariant.Lifecycle.{
  bind-Inv, acquire-Inv, renew_native-Inv, renew_manual_lease-Inv, propose-Inv,
}
use lab_runtime.Output.Invariant.Sending.{
  begin-Inv, reserve_transport-Inv, begin_transport-Inv, abort_transport-Inv,
  fail_transport_before_send-Inv,
}
use lab_runtime.Output.Invariant.Settlement.{complete-Inv, transport_uncertain-Inv}
use lab_runtime.Output.Invariant.Readback.{
  acknowledge_transport-Inv, complete_transport_readback-Inv, complete_transport_readback_exact-Inv,
  fail_transport_readback-Inv, complete_transport-Inv,
}

pub command-Inv :
    (c : OutputCommand) (at : ℕ) (a : OutputAuthority) → Inv a → Inv (command c at a).1
unfolding command
command-Inv (bind_profile p) at a v = bind-Inv p a v
command-Inv request_safe_output at a v = safe_with_profile-Inv _ a v
command-Inv (acquire_lease owner lifetime) at a v = acquire-Inv owner lifetime at a v
command-Inv (renew_manual l lifetime) at a v = renew_manual_lease-Inv l lifetime at a v
command-Inv (release l) at a v = release_lease-Inv l at a v
command-Inv trip at a v = safe_with_profile-Inv _ a v
command-Inv acknowledge_fault at a v = acknowledge-Inv a v
command-Inv (propose_value q) at a v = propose-Inv q at a v
command-Inv begin_dispatch at a v = begin-Inv at a v
command-Inv (complete_dispatch id outcome) at a v = complete-Inv id outcome at a v
command-Inv tick at a v = v

-- Every call keeps the invariant, whatever it returns.
pub step-Inv : (a : OutputAuthority) (o : Op) → Inv a → Inv (step a o)
unfolding step track_manual_attempt
step-Inv a (commands c at) v = command-Inv c at a v
step-Inv a (ticks at) v = watchdog-Inv at a v
step-Inv a (renews l lifetime at) v = renew_native-Inv l lifetime at a v
step-Inv a (reserves at r) v = reserve_transport-Inv at r a v
step-Inv a (begins i at) v = begin_transport-Inv i at a v
step-Inv a (aborts i) v = abort_transport-Inv i a v
step-Inv a (fails i) v = fail_transport_before_send-Inv i a v
step-Inv a (loses id) v = transport_uncertain-Inv id a v
step-Inv a (acknowledges id at) v = acknowledge_transport-Inv id at a v
step-Inv a (reads_back id x at) v = complete_transport_readback-Inv id x at a v
step-Inv a (reads_back_exact id x matched at) v =
    complete_transport_readback_exact-Inv id x matched at a v
step-Inv a (fails_readback id at) v = fail_transport_readback-Inv id at a v
step-Inv a (completes id outcome at) v = complete_transport-Inv id outcome at a v
step-Inv a (tracks id simulated) v = ground arith

pub run-Inv : (os : List Op) (a : OutputAuthority) → Inv a → Inv (run a os)
unfolding run
run-Inv [] a v = v
run-Inv (o ∷ os) a v = run-Inv os (step a o) (step-Inv a o v)
