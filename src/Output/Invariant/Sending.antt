-- ===== src/Output/Invariant/Sending.antt =====
-- The invariant under the two ways to start a send, and under reservations.
use lab_runtime.Base.{ℕ, ◌≡◌, true, false, inl, inr, Bool-cases, arith, checked_add}
use lab_runtime.Output.Types.{OutputIntent}
use lab_runtime.Output.Authority.{OutputAuthority, is_armed}
use lab_runtime.Output.Lifecycle.{armed_by}
use lab_runtime.Output.Sending.{begin}
use lab_runtime.Output.Transport.{
  Reservation, reserve_transport, begin_transport, abort_transport, fail_transport_before_send,
  launch,
}
use lab_runtime.Output.Permission.{
  Cleared, validate_transport-Cleared, check_permission-safe, check_permission-normal,
}
use lab_runtime.Output.Invariant.{Inv, is_revoked}

pub begin-Inv : (at : ℕ) (a : OutputAuthority) → Inv a → Inv (begin at a).1
unfolding begin checked_add is_revoked is_armed armed_by
begin-Inv at a v = ground arith

pub reserve_transport-Inv :
    (at : ℕ) (r : Reservation) (a : OutputAuthority) → Inv a → Inv (reserve_transport at r a).1
unfolding reserve_transport
reserve_transport-Inv at r a v = ground arith

launch_safe-Inv :
    (i : OutputIntent) (at : ℕ) (a : OutputAuthority)
    → Inv a
    → Cleared a i at
    → i.safe ≡ true
    → a.safe_obligation_pending ≡ true
    → Inv (launch i at a).1
unfolding launch checked_add is_revoked is_armed armed_by
launch_safe-Inv i at a v c s o = ground arith

launch_normal-Inv :
    (i : OutputIntent) (at : ℕ) (a : OutputAuthority)
    → Inv a
    → Cleared a i at
    → i.safe ≡ false
    → is_armed a.snapshot.state ≡ true
    → Inv (launch i at a).1
unfolding launch checked_add is_revoked is_armed armed_by
launch_normal-Inv i at a v c s o = ground arith

launch-Inv :
    (i : OutputIntent) (at : ℕ) (a : OutputAuthority)
    → Inv a
    → Cleared a i at
    → Inv (launch i at a).1
launch-Inv i at a v c = elim (Bool-cases i.safe) [
  | inl s ↦ launch_safe-Inv i at a v c s (check_permission-safe i at a c.permitted s).0
  | inr n ↦ launch_normal-Inv i at a v c n ((check_permission-normal i at a c.permitted n).2.armed)
]

pub begin_transport-Inv :
    (i : OutputIntent) (at : ℕ) (a : OutputAuthority) → Inv a → Inv (begin_transport i at a).1
unfolding begin_transport
begin_transport-Inv i at a v =
    ground (arith, validate_transport-Cleared i at a, launch-Inv i at a v)

pub abort_transport-Inv :
    (i : OutputIntent) (a : OutputAuthority) → Inv a → Inv (abort_transport i a)
unfolding abort_transport
abort_transport-Inv i a v = ground arith

pub fail_transport_before_send-Inv :
    (i : OutputIntent) (a : OutputAuthority) → Inv a → Inv (fail_transport_before_send i a)
unfolding fail_transport_before_send
fail_transport_before_send-Inv i a v = ground (arith, abort_transport-Inv i a v)
