-- ===== src/Output/Frame/Methods.antt =====
-- The frame of each method.
use lab_runtime.Base.{ℕ, Bool, true, false, inl, inr, arith, checked_add, Result-cases}
use lab_runtime.Output.Types.{
  OutputOwner, OutputLease, SafeProfile, OutputIntent, Dispatch, DispatchId, DispatchOutcome,
}
use lab_runtime.Output.Authority.{OutputAuthority, request_safe}
use lab_runtime.Output.Lifecycle.{OutputProposal, bind, acquire, renew, renew_native, propose}
use lab_runtime.Output.Sending.{begin}
use lab_runtime.Output.Settlement.{
  complete, flying, fail_safe, settle, confirm_safe, record_outcome,
}
use lab_runtime.Output.Transport.{
  Reservation, reserve_transport, begin_transport, abort_transport, fail_transport_before_send,
  transport_uncertain, launch,
}
use lab_runtime.Output.Commands.{
  watchdog, release_lease, safe_with_profile, acknowledge, renew_manual_lease,
}
use lab_runtime.Output.Permission.{check_lease-Permits, validate_transport-Cleared, Cleared}
use lab_runtime.Output.Invariant.{Inv}
use lab_runtime.Output.Frame.{Frame, Frame-refl, Frame-trans}

pub request_safe-Frame : (fault : Bool) (a : OutputAuthority) → Frame a (request_safe fault a).1
unfolding request_safe checked_add
request_safe-Frame fault a = ground arith

pub watchdog-Frame : (at : ℕ) (a : OutputAuthority) → Frame a (watchdog at a).1
unfolding watchdog
watchdog-Frame at a = ground (arith, request_safe-Frame false a, Frame-refl a)

pub safe_with_profile-Frame :
    (fault : Bool) (a : OutputAuthority) → Frame a (safe_with_profile fault a).1
unfolding safe_with_profile
safe_with_profile-Frame fault a = ground (arith, request_safe-Frame fault a, Frame-refl a)

pub release_lease-Frame :
    (l : OutputLease) (at : ℕ) (a : OutputAuthority) → Frame a (release_lease l at a).1
unfolding release_lease
release_lease-Frame l at a = ground (arith, request_safe-Frame false a, Frame-refl a)

pub acknowledge-Frame : (a : OutputAuthority) → Frame a (acknowledge a).1
unfolding acknowledge
acknowledge-Frame a = ground (arith, Frame-refl a)

pub bind-Frame : (p : SafeProfile) (a : OutputAuthority) → Frame a (bind p a).1
unfolding bind checked_add
bind-Frame p a = ground arith

pub acquire-Frame :
    (owner : OutputOwner) (lifetime at : ℕ) (a : OutputAuthority)
    → Frame a (acquire owner lifetime at a).1
unfolding acquire checked_add
acquire-Frame owner lifetime at a = ground arith

pub renew-Frame :
    (l : OutputLease) (lifetime at : ℕ) (a : OutputAuthority) → Frame a (renew l lifetime at a).1
unfolding renew
renew-Frame l lifetime at a = ground (arith, check_lease-Permits l at a)

pub renew_native-Frame :
    (l : OutputLease) (lifetime at : ℕ) (a : OutputAuthority)
    → Frame a (renew_native l lifetime at a).1
unfolding renew_native
renew_native-Frame l lifetime at a = ground (arith, renew-Frame l lifetime at a, Frame-refl a)

pub renew_manual_lease-Frame :
    (l : OutputLease) (lifetime at : ℕ) (a : OutputAuthority)
    → Frame a (renew_manual_lease l lifetime at a).1
unfolding renew_manual_lease
renew_manual_lease-Frame l lifetime at a = ground (arith, renew-Frame l lifetime at a, Frame-refl a)

pub propose-Frame : (q : OutputProposal) (at : ℕ) (a : OutputAuthority) → Frame a (propose q at a).1
unfolding propose
propose-Frame q at a = ground (arith, Frame-refl a)

pub begin-Frame : (at : ℕ) (a : OutputAuthority) → Inv a → Frame a (begin at a).1
unfolding begin checked_add
begin-Frame at a v = ground arith

pub reserve_transport-Frame :
    (at : ℕ) (r : Reservation) (a : OutputAuthority) → Frame a (reserve_transport at r a).1
unfolding reserve_transport
reserve_transport-Frame at r a = ground (arith, Frame-refl a)

launch-Frame :
    (i : OutputIntent) (at : ℕ) (a : OutputAuthority)
    → Inv a
    → Cleared a i at
    → Frame a (launch i at a).1
unfolding launch checked_add
launch-Frame i at a v c = ground arith

pub begin_transport-Frame :
    (i : OutputIntent) (at : ℕ) (a : OutputAuthority) → Inv a → Frame a (begin_transport i at a).1
unfolding begin_transport
begin_transport-Frame i at a v =
    ground (arith, validate_transport-Cleared i at a, launch-Frame i at a v, Frame-refl a)

pub abort_transport-Frame : (i : OutputIntent) (a : OutputAuthority) → Frame a (abort_transport i a)
unfolding abort_transport
abort_transport-Frame i a = ground (arith, Frame-refl a)

pub fail_transport_before_send-Frame :
    (i : OutputIntent) (a : OutputAuthority) → Frame a (fail_transport_before_send i a)
unfolding fail_transport_before_send
fail_transport_before_send-Frame i a = ground (arith, abort_transport-Frame i a, Frame-refl a)

pub fail_safe-Frame : (d : Dispatch) (a : OutputAuthority) → Frame a (fail_safe d a).1
unfolding fail_safe
fail_safe-Frame d a = ground (arith, request_safe-Frame true a)

confirm_safe-Frame :
    (outcome : DispatchOutcome) (a : OutputAuthority) → Frame a (confirm_safe outcome a).1
unfolding confirm_safe
confirm_safe-Frame outcome a = ground (arith, Frame-refl a)

settle-Frame :
    (d : Dispatch) (outcome : DispatchOutcome) (a : OutputAuthority)
    → Frame a (settle d outcome a).1
unfolding settle
settle-Frame d outcome a =
    ground (arith, fail_safe-Frame d a, confirm_safe-Frame outcome a, Frame-refl a)

record_outcome-Frame :
    (d : Dispatch) (outcome : DispatchOutcome) (at : ℕ) (a : OutputAuthority)
    → Frame a (record_outcome d outcome at a)
unfolding record_outcome
record_outcome-Frame d outcome at a = ground arith

pub complete-Frame :
    (id : DispatchId) (outcome : DispatchOutcome) (at : ℕ) (a : OutputAuthority)
    → Frame a (complete id outcome at a).1
unfolding complete
complete-Frame id outcome at a = elim (Result-cases (flying id a)) [
  | inl (d, e) ↦ ground (
    arith,
    Frame-trans {a = a} (record_outcome-Frame d outcome at a)
        (settle-Frame d outcome (record_outcome d outcome at a)),
  )
  | inr (x, e) ↦ ground (arith, Frame-refl a)
]

pub transport_uncertain-Frame :
    (id : DispatchId) (a : OutputAuthority) → Frame a (transport_uncertain id a).1
unfolding transport_uncertain
transport_uncertain-Frame id a = elim (Result-cases (flying id a)) [
  | inl (d, e) ↦ ground (arith, fail_safe-Frame d a)
  | inr (x, e) ↦ ground (arith, Frame-refl a)
]
