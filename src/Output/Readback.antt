-- ===== src/Output/Readback.antt =====
-- crates/lab-core/src/output/authority.rs: the acknowledgement of a transport write and the separate
-- readback phase that settles it.
use lab_runtime.Base.{
  ℕ, Bool, true, false, some, F64, is_finite, f64_eq, guard, ok_or, ◌>>=◌, ◌>>◌, return, check,
  modify, u64_eq,
}
use lab_runtime.Model.{output, unknown_dispatch}
use lab_runtime.Output.Types.{DispatchId, Dispatch, DispatchOutcome, OutputReadbackFailure}
use lab_runtime.Output.Authority.{OutputAuthority, Method}
use lab_runtime.Output.Lifecycle.{OutputResult}
use lab_runtime.Output.Settlement.{flying, complete, capture_manual_delivery}

unfoldable pub set_acknowledged : Dispatch → ℕ → OutputAuthority → OutputAuthority
unfolding capture_manual_delivery
set_acknowledged d at a = capture_manual_delivery d.id false (record a {
  snapshot = record (a.snapshot) {
    acknowledged = some (record { value = d.value; at = at });
    outcome = some DispatchOutcome.acknowledged;
  };
})

unfoldable pub acknowledge_transport : DispatchId → ℕ → Method (Unit {0})
unfolding set_acknowledged
acknowledge_transport id at = do d ← check (flying id); modify (set_acknowledged d at)

unfoldable pub set_reported : F64 → ℕ → OutputAuthority → OutputAuthority
set_reported x at a = record a {
  snapshot = record (a.snapshot) { reported_readback = some (record { value = x; at = at }) };
}

unfoldable pub set_readback_failure : OutputReadbackFailure → OutputAuthority → OutputAuthority
set_readback_failure f a = record a { snapshot = record (a.snapshot) { readback_failure = some f } }

unfoldable pub settle_readback : DispatchId → Bool → ℕ → Method OutputResult
unfolding set_readback_failure
settle_readback id true at = complete id DispatchOutcome.readback_verified at
settle_readback id false at = do
  modify (set_readback_failure OutputReadbackFailure.mismatch)
  complete id DispatchOutcome.failed at

unfoldable pub complete_transport_readback_exact : DispatchId → F64 → Bool → ℕ → Method Bool
unfolding set_reported
complete_transport_readback_exact id reported matched at = do
  d ← check (flying id)
  check (λ a. guard (is_finite reported) (output unknown_dispatch))
  modify (set_reported reported at)
  _ ← settle_readback id matched at
  return matched

unfoldable pub complete_transport_readback : DispatchId → F64 → ℕ → Method Bool
complete_transport_readback id reported at = do
  d ← check (λ a. ok_or a.snapshot.in_flight (output unknown_dispatch))
  complete_transport_readback_exact id reported (f64_eq reported d.value) at

unfoldable pub fail_transport_readback : DispatchId → ℕ → Method (Unit {0})
unfolding set_readback_failure
fail_transport_readback id at = do
  modify (set_readback_failure OutputReadbackFailure.unavailable)
  _ ← complete id DispatchOutcome.ambiguous at
  return tt

unfoldable pub complete_transport : DispatchId → DispatchOutcome → ℕ → Method (Unit {0})
complete_transport id outcome at = do _ ← complete id outcome at; return tt
