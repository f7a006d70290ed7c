-- ===== src/Output/Invariant/Readback.antt =====
-- The invariant under acknowledgements, readbacks and manual attempts.
use lab_runtime.Base.{ℕ, Bool, true, false, inl, inr, arith, F64, f64_eq, Option-cases}
use lab_runtime.Output.Types.{DispatchId, DispatchOutcome, OutputReadbackFailure}
use lab_runtime.Output.Authority.{OutputAuthority}
use lab_runtime.Output.Readback.{
  acknowledge_transport, complete_transport_readback, complete_transport_readback_exact,
  fail_transport_readback, complete_transport, settle_readback, set_reported, set_readback_failure,
}
use lab_runtime.Output.Invariant.{Inv}
use lab_runtime.Output.Invariant.Settlement.{complete-Inv}

pub acknowledge_transport-Inv :
    (id : DispatchId) (at : ℕ) (a : OutputAuthority) → Inv a → Inv (acknowledge_transport id at a).1
unfolding acknowledge_transport
acknowledge_transport-Inv id at a v = ground arith

set_reported-Inv : (x : F64) (at : ℕ) (a : OutputAuthority) → Inv a → Inv (set_reported x at a)
unfolding set_reported
set_reported-Inv x at a v = ground arith

set_readback_failure-Inv :
    (f : OutputReadbackFailure) (a : OutputAuthority) → Inv a → Inv (set_readback_failure f a)
unfolding set_readback_failure
set_readback_failure-Inv f a v = ground arith

settle_readback-Inv :
    (id : DispatchId) (matched : Bool) (at : ℕ) (a : OutputAuthority)
    → Inv a
    → Inv (settle_readback id matched at a).1
unfolding settle_readback
settle_readback-Inv id true at a v = complete-Inv id _ at a v
settle_readback-Inv id false at a v = complete-Inv id _ at _ (set_readback_failure-Inv _ a v)

pub complete_transport_readback_exact-Inv :
    (id : DispatchId) (x : F64) (matched : Bool) (at : ℕ) (a : OutputAuthority)
    → Inv a
    → Inv (complete_transport_readback_exact id x matched at a).1
unfolding complete_transport_readback_exact
complete_transport_readback_exact-Inv id x matched at a v =
    ground
      (arith, settle_readback-Inv id matched at (set_reported x at a) (set_reported-Inv x at a v))

pub complete_transport_readback-Inv :
    (id : DispatchId) (x : F64) (at : ℕ) (a : OutputAuthority)
    → Inv a
    → Inv (complete_transport_readback id x at a).1
unfolding complete_transport_readback
complete_transport_readback-Inv id x at a v = elim (Option-cases a.snapshot.in_flight) [
  | inl e ↦ ground arith
  | inr (d, e) ↦
      ground (arith, complete_transport_readback_exact-Inv id x (f64_eq x d.value) at a v)
]

pub fail_transport_readback-Inv :
    (id : DispatchId) (at : ℕ) (a : OutputAuthority)
    → Inv a
    → Inv (fail_transport_readback id at a).1
unfolding fail_transport_readback
fail_transport_readback-Inv id at a v = ground (
  arith,
  complete-Inv id DispatchOutcome.ambiguous at
      (set_readback_failure OutputReadbackFailure.unavailable a)
      (set_readback_failure-Inv OutputReadbackFailure.unavailable a v),
)

pub complete_transport-Inv :
    (id : DispatchId) (outcome : DispatchOutcome) (at : ℕ) (a : OutputAuthority)
    → Inv a
    → Inv (complete_transport id outcome at a).1
unfolding complete_transport
complete_transport-Inv id outcome at a v = ground (arith, complete-Inv id outcome at a v)
