-- ===== src/Output/Invariant/Settlement.antt =====
-- The invariant under settlements, acknowledgements and readbacks.
use lab_runtime.Base.{
  refl, subst, inl, inr, Result-cases, Option-cases, OnSome, ℕ, ◌≡◌, Bool, true, false, none, some,
  ok, arith, checked_add,
}
use lab_runtime.Output.Types.{Dispatch, DispatchId, DispatchOutcome, dispatch_id_eq_iff}
use lab_runtime.Output.Authority.{OutputAuthority, is_armed, request_safe}
use lab_runtime.Output.Lifecycle.{armed_by}
use lab_runtime.Output.Settlement.{
  complete, flying, fail_safe, record_outcome, settle, confirm_safe,
}
use lab_runtime.Output.Transport.{transport_uncertain}
use lab_runtime.Output.Invariant.{Inv, is_revoked, FlightIsCorrelated}
use lab_runtime.Output.Invariant.Core.{request_safe-Inv}

-- What a granted safe request leaves behind.
request_safe-revoked :
    (fault : Bool) (a : OutputAuthority)
    → (request_safe fault a).0 ≡ ok tt
    → ((request_safe fault a).1.safe_obligation_pending ≡ true)
      × ((request_safe fault a).1.transport_reserved ≡ none)
      × ((request_safe fault a).1.snapshot.lease ≡ none)
      × ((request_safe fault a).1.snapshot.safe_confirmed ≡ false)
      × (fault ≡ true → (request_safe fault a).1.snapshot.fault_latched ≡ true)
unfolding request_safe checked_add
request_safe-revoked fault a h = ground arith

pub fail_safe-Inv : (d : Dispatch) (a : OutputAuthority) → Inv a → Inv (fail_safe d a).1
unfolding fail_safe is_revoked is_armed armed_by
fail_safe-Inv d a v = ground (arith, request_safe-Inv true a v, request_safe-revoked true a)

record_outcome-Inv :
    (d : Dispatch) (outcome : DispatchOutcome) (at : ℕ) (a : OutputAuthority)
    → Inv a
    → Inv (record_outcome d outcome at a)
unfolding record_outcome
record_outcome-Inv d outcome at a v = ground arith

confirm_safe-Inv :
    (outcome : DispatchOutcome) (a : OutputAuthority)
    → Inv a
    → a.snapshot.in_flight ≡ none
    → a.safe_obligation_pending ≡ false
    → is_revoked a.snapshot.state ≡ true
    → Inv (confirm_safe outcome a).1
unfolding confirm_safe is_revoked is_armed armed_by
confirm_safe-Inv outcome a v f o r = ground arith

settle-Inv :
    (d : Dispatch) (outcome : DispatchOutcome) (a : OutputAuthority)
    → Inv a
    → a.snapshot.in_flight ≡ none
    → FlightIsCorrelated a d
    → Inv (settle d outcome a).1
unfolding settle
settle-Inv d outcome a v f c = ground (arith, fail_safe-Inv d a v, confirm_safe-Inv outcome a v f)

-- The dispatch that a completion names.
pub flying-eq :
    (id : DispatchId) (a : OutputAuthority) (d : Dispatch)
    → flying id a ≡ ok d
    → (a.snapshot.in_flight ≡ some d) × (d.id ≡ id)
unfolding flying
flying-eq id a d h = elim (Option-cases a.snapshot.in_flight) [
  | inl e ↦ absurd (ground arith)
  | inr (x, e) ↦ ground (arith, (dispatch_id_eq_iff x.id id).0)
]

pub flying-correlated :
    (id : DispatchId) (a : OutputAuthority) (d : Dispatch)
    → Inv a
    → flying id a ≡ ok d
    → FlightIsCorrelated a d
flying-correlated id a d v h =
    subst (OnSome (FlightIsCorrelated a)) (flying-eq id a d h).0 v.flight_correlated

-- A settled dispatch is gone, and what it was correlated with has not changed.
record_outcome-correlated :
    (d : Dispatch) (outcome : DispatchOutcome) (at : ℕ) (a : OutputAuthority)
    → FlightIsCorrelated a d
    → ((record_outcome d outcome at a).snapshot.in_flight ≡ none)
      × FlightIsCorrelated (record_outcome d outcome at a) d
unfolding record_outcome
record_outcome-correlated d outcome at a c = (refl, c)

pub complete-Inv :
    (id : DispatchId) (outcome : DispatchOutcome) (at : ℕ) (a : OutputAuthority)
    → Inv a
    → Inv (complete id outcome at a).1
unfolding complete
complete-Inv id outcome at a v = elim (Result-cases (flying id a)) [
  | inl (d, e) ↦
      let (gone, same) = record_outcome-correlated d outcome at a (flying-correlated id a d v e) in
      ground (
        arith,
        settle-Inv d outcome (record_outcome d outcome at a) (record_outcome-Inv d outcome at a v)
            gone same,
      )
  | inr (x, e) ↦ ground arith
]

pub transport_uncertain-Inv :
    (id : DispatchId) (a : OutputAuthority) → Inv a → Inv (transport_uncertain id a).1
unfolding transport_uncertain
transport_uncertain-Inv id a v = elim (Result-cases (flying id a)) [
  | inl (d, e) ↦ ground (arith, fail_safe-Inv d a v)
  | inr (x, e) ↦ ground arith
]
