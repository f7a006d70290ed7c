-- ===== src/Output/Invariant/Core.antt =====
-- The invariant under `new`, `request_safe` and the watchdog.
use lab_runtime.Base.{ℕ, ◌≡◌, Bool, false, ok, arith, checked_add}
use lab_runtime.Model.{ValueSpec, EngineeringUnit}
use lab_runtime.Output.Types.{ActuatorId, OutputLease}
use lab_runtime.Output.Authority.{
  OutputAuthority, new, request_safe, is_armed, clear_pending, fail_manual_before_send,
}
use lab_runtime.Output.Lifecycle.{armed_by}
use lab_runtime.Output.Commands.{watchdog, release_lease, safe_with_profile, acknowledge}
use lab_runtime.Output.Invariant.{Inv, is_revoked}

pub new-Inv :
    (actuator : ActuatorId) (limits : ValueSpec) (unit : EngineeringUnit) (n : ℕ)
    (a : OutputAuthority)
    → (new actuator limits unit n).0 ≡ ok a
    → Inv a
unfolding new is_armed armed_by is_revoked
new-Inv actuator limits unit n a h = ground arith

pub request_safe-Inv : (fault : Bool) (a : OutputAuthority) → Inv a → Inv (request_safe fault a).1
unfolding request_safe checked_add is_revoked is_armed armed_by
request_safe-Inv fault a v = ground arith

pub watchdog-Inv : (at : ℕ) (a : OutputAuthority) → Inv a → Inv (watchdog at a).1
unfolding watchdog
watchdog-Inv at a v = ground (arith, request_safe-Inv false a v)

pub safe_with_profile-Inv :
    (fault : Bool) (a : OutputAuthority) → Inv a → Inv (safe_with_profile fault a).1
unfolding safe_with_profile
safe_with_profile-Inv fault a v = ground (arith, request_safe-Inv fault a v)

pub release_lease-Inv :
    (l : OutputLease) (at : ℕ) (a : OutputAuthority) → Inv a → Inv (release_lease l at a).1
unfolding release_lease
release_lease-Inv l at a v = ground (arith, request_safe-Inv false a v)

pub acknowledge-Inv : (a : OutputAuthority) → Inv a → Inv (acknowledge a).1
unfolding acknowledge is_revoked is_armed armed_by
acknowledge-Inv a v = ground arith

pub clear_pending-Inv : (a : OutputAuthority) → Inv a → Inv (clear_pending a)
unfolding clear_pending
clear_pending-Inv a v = ground arith

pub fail_manual_before_send-Inv : (a : OutputAuthority) → Inv a → Inv (fail_manual_before_send a)
unfolding fail_manual_before_send
fail_manual_before_send-Inv a v = ground arith
