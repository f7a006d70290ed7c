-- ===== src/Output/Invariant.antt =====
-- What holds of an output authority between two calls, and that every call keeps it. The children
-- prove it for the methods of one file each.
pub mod Core
pub mod Lifecycle
pub mod Sending
pub mod Settlement
pub mod Readback
pub mod Runs
use lab_runtime.Base.{
  ℕ, suc, ◌+◌, ◌≤◌, ◌<◌, ◌≡◌, Bool, true, false, Option, none, some, is_some, List, [], ◌∷◌, arith,
  ok, err, refl, OnSome,
}
use lab_runtime.Output.Types.{OutputState, OutputLease, Dispatch}
use lab_runtime.Output.Authority.{Pending, OutputAuthority, is_armed}
use lab_runtime.Output.Lifecycle.{armed_by}

-- Ordinary permission has been taken away and not been established again.
unfoldable pub is_revoked : OutputState → Bool
is_revoked OutputState.safe_pending = true
is_revoked OutputState.fault_latched = true
is_revoked _ = false

abbrev pub LeaseIsCurrent : OutputAuthority → OutputLease → Type 0
LeaseIsCurrent a l =
    (l.epoch ≡ a.snapshot.epoch)
    × (l.instance_id ≡ a.instance_id)
    × (l.actuator ≡ a.actuator)
    × (a.snapshot.state ≡ armed_by l.owner)

-- A safe write of the current epoch is in flight only while its permission is revoked and no newer
-- safe request waits.
abbrev pub FlightIsCorrelated : OutputAuthority → Dispatch → Type 0
FlightIsCorrelated a d =
    (d.id.instance_id ≡ a.instance_id)
    × (d.id.sequence < a.next_dispatch)
    × (d.epoch ≤ a.snapshot.epoch)
    × (d.safe ≡ true
        → d.epoch ≡ a.snapshot.epoch
        → (a.safe_obligation_pending ≡ false) × (is_revoked a.snapshot.state ≡ true))

pub record Inv (a : OutputAuthority) : Type 0 where
  pub lease_current : OnSome (LeaseIsCurrent a) a.snapshot.lease
  pub leased_profiled : is_some a.snapshot.lease ≡ true → is_some a.snapshot.profile ≡ true
  pub armed_leased : is_armed a.snapshot.state ≡ true → is_some a.snapshot.lease ≡ true
  pub pending_mirrored : a.snapshot.pending ≡ is_some a.pending
  pub pending_leased : OnSome (λ (p : Pending). a.snapshot.lease ≡ some p.lease) a.pending
  pub confirmed_idle :
      a.snapshot.safe_confirmed ≡ true
      → (a.snapshot.lease ≡ none)
        × (a.snapshot.in_flight ≡ none)
        × (a.safe_obligation_pending ≡ false)
  pub disarmed_confirmed :
      a.snapshot.state ≡ OutputState.disarmed → a.snapshot.safe_confirmed ≡ true
  pub reserved_unsent : is_some a.transport_reserved ≡ true → a.snapshot.in_flight ≡ none
  pub flight_correlated : OnSome (FlightIsCorrelated a) a.snapshot.in_flight
  pub fault_revokes : a.snapshot.fault_latched ≡ true → is_revoked a.snapshot.state ≡ true
  pub obligation_revokes : a.safe_obligation_pending ≡ true → is_revoked a.snapshot.state ≡ true
  pub blocked_closed :
      a.ambiguous_safe_resend_blocked ≡ true
      → (a.safe_obligation_pending ≡ true)
        × (a.snapshot.state ≡ OutputState.fault_latched)
        × (a.snapshot.fault_latched ≡ true)
        × (a.transport_reserved ≡ none)
