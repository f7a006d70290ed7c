-- ===== src/Output/Safety.antt =====
-- The promises of an output authority, from its invariant and its frame.
use lab_runtime.Base.{
  ℕ, suc, ◌≤◌, ◌<◌, ◌≡◌, ◌≢◌, ◌⊎◌, inl, inr, Bool, true, false, none, some, OnSome, is_some, ok,
  arith, List, F64, is_finite, in_range, checked_add, Result-cases, Option-cases, Bool-cases,
}
use lab_runtime.Model.{validate, Value, ValueSpec, validate-float_iff, EngineeringUnit, unit_eq}
use lab_runtime.Output.Types.{ActuatorId, OutputLease, OutputIntent, DispatchId, SafeProfile}
use lab_runtime.Output.Authority.{OutputAuthority, new, check_lease, request_safe}
use lab_runtime.Output.Lifecycle.{OutputResult, OutputProposal, renew, propose}
use lab_runtime.Output.Sending.{next}
use lab_runtime.Output.Transport.{begin_transport, launch, validate_transport}
use lab_runtime.Output.Commands.{Op, run, release_lease}
use lab_runtime.Output.Permission.{
  Permits, check_lease-Permits, Cleared, validate_transport-Cleared, check_permission-safe,
  check_permission-normal, Reserved, is_reserved-Reserved,
}
use lab_runtime.Output.Invariant.{Inv}
use lab_runtime.Output.Invariant.Core.{new-Inv, request_safe-Inv}
use lab_runtime.Output.Invariant.Sending.{begin_transport-Inv}
use lab_runtime.Output.Invariant.Runs.{run-Inv}
use lab_runtime.Output.Frame.{Frame}
use lab_runtime.Output.Frame.Runs.{run-Frame}

-- A new authority satisfies the invariant after every history of calls.
pub run-new-Inv :
    (actuator : ActuatorId) (limits : ValueSpec) (unit : EngineeringUnit) (n : ℕ)
    (a : OutputAuthority) (os : List Op)
    → (new actuator limits unit n).0 ≡ ok a
    → Inv (run a os)
run-new-Inv actuator limits unit n a os h = run-Inv os a (new-Inv actuator limits unit n a h)

-- No lease of epoch `e` or older is current, now or later.
abbrev pub Outdated : ℕ → OutputAuthority → Type 0
Outdated e a = (e ≤ a.snapshot.epoch) × OnSome (λ (l : OutputLease). e < l.epoch) a.snapshot.lease

pub Frame-Outdated : (e : ℕ) {a b : OutputAuthority} → Frame a b → Outdated e a → Outdated e b
Frame-Outdated e {a} {b} f o = ground arith

request_safe-Outdated :
    (fault : Bool) (a : OutputAuthority) → Outdated a.snapshot.epoch (request_safe fault a).1
unfolding request_safe checked_add
request_safe-Outdated fault a = ground arith

Outdated-check_lease :
    (a : OutputAuthority) (l : OutputLease) (at : ℕ)
    → Outdated l.epoch a
    → check_lease l at a ≢ ok tt
Outdated-check_lease a l at o h = ground (arith, check_lease-Permits l at a h)

-- Once a safe request has been made, whether it succeeded or ran out of epochs, the lease that was
-- current before it is refused in every later state: no proposal, renewal or release under it is
-- accepted, whatever calls come between.
pub revoked_lease_refused :
    (a : OutputAuthority) (l : OutputLease) (fault : Bool) (os : List Op) (q : OutputProposal)
    (lifetime at : ℕ)
    → Inv a
    → a.snapshot.lease ≡ some l
    → q.lease ≡ l
    → let b = run (request_safe fault a).1 os in
      ((r : OutputResult) → (propose q at b).0 ≢ ok r)
      × ((k : OutputLease) → (renew l lifetime at b).0 ≢ ok k)
      × ((r : OutputResult) → (release_lease l at b).0 ≢ ok r)
unfolding propose renew release_lease
revoked_lease_refused a l fault os q lifetime at v held same =
    (λ r h. refused (ground arith), λ k h. refused (ground arith), λ r h. refused (ground arith))
  where
    b : OutputAuthority
    b = run (request_safe fault a).1 os

    old : Outdated l.epoch b
    old =
        Frame-Outdated l.epoch {a = (request_safe fault a).1}
          (run-Frame os (request_safe fault a).1 (request_safe-Inv fault a v))
          (ground (arith, request_safe-Outdated fault a, v.lease_current))

    refused : check_lease l at b ≢ ok tt
    refused = Outdated-check_lease b l at old

-- The one who authorises a send: the pending safe obligation, or a current lease with time left.
abbrev pub Authorised : OutputAuthority → OutputIntent → ℕ → Type 0
Authorised a i at =
    ((i.safe ≡ true) × (a.safe_obligation_pending ≡ true))
    ⊎ ((i.safe ≡ false) × ((l : OutputLease) × (i.lease ≡ some l) × Permits a l at))

-- A finite value within the bounds of the installed profile.
abbrev pub InProfile : OutputAuthority → F64 → Type 0
InProfile a x =
    OnSome (λ (p : SafeProfile). (is_finite x ≡ true) × (in_range p.min p.max x ≡ true))
      a.snapshot.profile

Cleared-Authorised :
    (i : OutputIntent) (at : ℕ) (a : OutputAuthority) → Cleared a i at → Authorised a i at
Cleared-Authorised i at a c = elim (Bool-cases i.safe) [
  | inl s ↦ inl (s, (check_permission-safe i at a c.permitted s).0)
  | inr n ↦ inr (n, check_permission-normal i at a c.permitted n)
]

float-in_range :
    (lo hi x : F64)
    → validate (ValueSpec.float lo hi) (Value.float x) ≡ ok tt
    → (is_finite x ≡ true) × (in_range lo hi x ≡ true)
float-in_range lo hi x h =
    let (y, e, _, _, _, finite, within) = (validate-float_iff lo hi (Value.float x)).0 h in
    let same : x ≡ y = ground arith in (rw same finite, rw same within)

Cleared-InProfile :
    (i : OutputIntent) (at : ℕ) (a : OutputAuthority) → Cleared a i at → InProfile a i.value
Cleared-InProfile i at a c = elim (Option-cases a.snapshot.profile) [
  | inl e ↦ rw e tt
  | inr (p, e) ↦ rw e (float-in_range p.min p.max i.value (rw e at c.within_profile))
]

launch-in_flight :
    (i : OutputIntent) (at : ℕ) (a : OutputAuthority) (id : DispatchId)
    → (launch i at a).0 ≡ ok id
    → (id.sequence ≡ a.next_dispatch)
      × ((launch i at a).1.next_dispatch ≡ suc id.sequence)
      × ((launch i at a).1.snapshot.in_flight ≡ some (next i.value i.safe i.epoch a))
unfolding launch checked_add
launch-in_flight i at a id h = ground arith

-- A send that starts has passed the last check, and is then the launch.
begin_transport-launch :
    (i : OutputIntent) (at : ℕ) (a : OutputAuthority) (id : DispatchId)
    → (begin_transport i at a).0 ≡ ok id
    → (validate_transport i at a ≡ ok tt) × (begin_transport i at a ≡ launch i at a)
unfolding begin_transport
begin_transport-launch i at a id h = elim (Result-cases (validate_transport i at a)) [
  | inl (u, e) ↦ (e, ground arith)
  | inr (x, e) ↦ absurd (ground arith)
]

-- The first byte of a transport write is accepted only for the intent that is reserved, of this
-- actuator, instance and unit, while nothing else is in flight, at the current epoch, before the
-- intent expires, for a finite value that the device's limits and the installed profile allow, and
-- by authority of the pending safe obligation or of the current lease with time left. The
-- dispatch carries exactly the value, kind and epoch of the intent under a fresh number.
pub begin_transport-Authorised :
    (i : OutputIntent) (at : ℕ) (a : OutputAuthority) (id : DispatchId)
    → (begin_transport i at a).0 ≡ ok id
    → Reserved a i
      × (i.actuator ≡ a.actuator)
      × (i.instance_id ≡ a.instance_id)
      × (unit_eq i.unit a.unit ≡ true)
      × (validate a.limits (Value.float i.value) ≡ ok tt)
      × (a.snapshot.in_flight ≡ none)
      × (i.epoch ≡ a.snapshot.epoch)
      × (at < i.expires)
      × (is_some a.snapshot.profile ≡ true)
      × InProfile a i.value
      × Authorised a i at
      × (id.sequence ≡ a.next_dispatch)
      × ((begin_transport i at a).1.next_dispatch ≡ suc id.sequence)
      × ((begin_transport i at a).1.snapshot.in_flight ≡ some (next i.value i.safe i.epoch a))
begin_transport-Authorised i at a id h =
    let (passed, same) = begin_transport-launch i at a id h in
    let c = validate_transport-Cleared i at a passed in
    let (number, following, flight) = launch-in_flight i at a id (rw same at h) in
    (
      is_reserved-Reserved i a c.reserved,
      c.actuator,
      c.instance,
      c.unit,
      c.within_limits,
      c.unsent,
      c.epoch,
      c.live,
      c.profiled,
      Cleared-InProfile i at a c,
      Cleared-Authorised i at a c,
      number,
      rw same following,
      rw same flight,
    )

-- Two sends of one authority never share a dispatch number, whatever calls come between.
pub dispatch_numbers_differ :
    (i j : OutputIntent) (at later : ℕ) (a : OutputAuthority) (os : List Op) (id id' : DispatchId)
    → Inv a
    → (begin_transport i at a).0 ≡ ok id
    → (begin_transport j later (run (begin_transport i at a).1 os)).0 ≡ ok id'
    → id.sequence < id'.sequence
dispatch_numbers_differ i j at later a os id id' v h k =
    let sent = (begin_transport i at a).1 in
    let first = begin_transport-Authorised i at a id h in
    let second = begin_transport-Authorised j later (run sent os) id' k in
    let frame = run-Frame os sent (begin_transport-Inv i at a v) in
    omega (arith, first.12, second.11, frame.dispatch_le)
