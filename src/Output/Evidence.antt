-- ===== src/Output/Evidence.antt =====
-- Evidence, faults and the safe obligation: what settles a safe write, what an ambiguous one
-- leaves, who may arm, and what the watchdog does.
use lab_runtime.Base.{
  ℕ, ◌+◌, ◌≤◌, ◌<◌, ◌≡◌, ◌⊎◌, inl, inr, ◌∙◌, true, false, none, some, OnSome, ok, err, arith, List,
  checked_add, u64_max, Result-cases, duration_add,
}
use lab_runtime.Model.{output, invalid_state}
use lab_runtime.Output.Types.{
  OutputOwner, OutputState, OutputLease, Dispatch, DispatchId, DispatchOutcome, SafeProfile,
}
use lab_runtime.Output.Authority.{OutputAuthority, request_safe}
use lab_runtime.Output.Lifecycle.{OutputResult, acquire, renew, armed_by}
use lab_runtime.Output.Settlement.{
  complete, flying, acknowledges, verifies, accepts_acknowledgement, fail_safe, settle,
  record_outcome, confirm_safe,
}
use lab_runtime.Output.Commands.{Op, run, watchdog}
use lab_runtime.Output.Permission.{Permits, check_lease-Permits}
use lab_runtime.Output.Invariant.{Inv, is_revoked}
use lab_runtime.Output.Invariant.Settlement.{complete-Inv, flying-eq}
use lab_runtime.Output.Invariant.Runs.{run-Inv}
use lab_runtime.Output.Frame.Runs.{run-Frame}

-- The evidence that the profile asks for.
abbrev pub Sufficient : DispatchOutcome → OutputAuthority → Type 0
Sufficient outcome a =
    (verifies outcome ≡ true)
    ⊎ ((acknowledges outcome ≡ true)
        × OnSome (λ (p : SafeProfile). accepts_acknowledgement p ≡ true) a.snapshot.profile)

settle-confirmed :
    (d : Dispatch) (outcome : DispatchOutcome) (a : OutputAuthority)
    → a.snapshot.safe_confirmed ≡ false
    → (settle d outcome a).1.snapshot.safe_confirmed ≡ true
    → (d.safe ≡ true) × (d.epoch ≡ a.snapshot.epoch) × Sufficient outcome a
unfolding settle fail_safe request_safe confirm_safe
settle-confirmed d outcome a n h = ground arith

-- A completion confirms the safe state only for the safe write in flight that it names, at the
-- current epoch, with the evidence that the profile asks for: a readback, or an acknowledgement
-- where the profile accepts one.
pub complete_confirms_safe :
    (id : DispatchId) (outcome : DispatchOutcome) (at : ℕ) (a : OutputAuthority)
    → Inv a
    → a.snapshot.safe_confirmed ≡ false
    → (complete id outcome at a).1.snapshot.safe_confirmed ≡ true
    → (d : Dispatch) × (a.snapshot.in_flight ≡ some d)
      × (d.id ≡ id)
      × (d.safe ≡ true)
      × (d.epoch ≡ a.snapshot.epoch)
      × Sufficient outcome a
unfolding complete record_outcome
complete_confirms_safe id outcome at a v n h = elim (Result-cases (flying id a)) [
  | inl (d, e) ↦
      let (flight, named) = flying-eq id a d e in
      let (safe, current, enough) =
        settle-confirmed d outcome (record_outcome d outcome at a) n (ground arith) in
      (d, flight, named, safe, current, enough)
  | inr (x, e) ↦ absurd (ground arith)
]

fail_safe-blocks :
    (d : Dispatch) (a : OutputAuthority)
    → d.safe ≡ true
    → a.snapshot.epoch < u64_max
    → ((fail_safe d a).1.ambiguous_safe_resend_blocked ≡ true)
      × ((fail_safe d a).1.snapshot.sent ≡ a.snapshot.sent)
      × ((fail_safe d a).1.next_dispatch ≡ a.next_dispatch)
unfolding fail_safe request_safe checked_add
fail_safe-blocks d a s h = ground arith

complete-blocks :
    (id : DispatchId) (outcome : DispatchOutcome) (at : ℕ) (a : OutputAuthority) (d : Dispatch)
    → flying id a ≡ ok d
    → d.safe ≡ true
    → acknowledges outcome ≡ false
    → a.snapshot.epoch < u64_max
    → ((complete id outcome at a).1.ambiguous_safe_resend_blocked ≡ true)
      × ((complete id outcome at a).1.snapshot.sent ≡ a.snapshot.sent)
      × ((complete id outcome at a).1.next_dispatch ≡ a.next_dispatch)
unfolding complete settle record_outcome
complete-blocks id outcome at a d e s n h =
    ground (arith, e, fail_safe-blocks d (record_outcome d outcome at a) s h)

blocked_closed_lem :
    (a : OutputAuthority)
    → Inv a
    → a.ambiguous_safe_resend_blocked ≡ true
    → (a.safe_obligation_pending ≡ true)
      × (a.snapshot.state ≡ OutputState.fault_latched)
      × (a.snapshot.lease ≡ none)
unfolding armed_by
blocked_closed_lem a v b = ground arith

-- On a well-formed authority whose epoch is not the last u64, a safe write that ends failed or
-- ambiguous is never sent again: whatever calls follow, nothing more is sent, no dispatch number is
-- used, the authority stays faulted without a lease and the safe obligation stays recorded.
pub ambiguous_safe_never_resent :
    (id : DispatchId) (outcome : DispatchOutcome) (at : ℕ) (a : OutputAuthority) (d : Dispatch)
    (os : List Op)
    → Inv a
    → flying id a ≡ ok d
    → d.safe ≡ true
    → acknowledges outcome ≡ false
    → a.snapshot.epoch < u64_max
    → let b = run (complete id outcome at a).1 os in
      (b.snapshot.sent ≡ a.snapshot.sent)
      × (b.next_dispatch ≡ a.next_dispatch)
      × (b.safe_obligation_pending ≡ true)
      × (b.snapshot.state ≡ OutputState.fault_latched)
      × (b.snapshot.lease ≡ none)
ambiguous_safe_never_resent id outcome at a d os v e s n h =
    let after = (complete id outcome at a).1 in
    let kept = complete-Inv id outcome at a v in
    let (blocked, sent, number) = complete-blocks id outcome at a d e s n h in
    let (still, silent, unused) = (run-Frame os after kept).blocked_silent blocked in
    let (obliged, faulted, unleased) =
      blocked_closed_lem (run after os) (run-Inv os after kept) still in
    (silent ∙ sent, unused ∙ number, obliged, faulted, unleased)

-- A latched fault keeps everyone from arming: an acquisition is refused and changes nothing.
pub fault_refuses_acquire :
    (owner : OutputOwner) (lifetime at : ℕ) (a : OutputAuthority)
    → Inv a
    → a.snapshot.fault_latched ≡ true
    → acquire owner lifetime at a ≡ (err (output invalid_state), a)
unfolding acquire is_revoked
fault_refuses_acquire owner lifetime at a v f = ground arith

-- An acquisition that succeeds starts from a disarmed output with confirmed safe evidence and no
-- fault, at a lifetime that the profile allows; its lease expires after exactly that time, belongs
-- to a new epoch and is the current one, and the safe confirmation is used up.
pub acquire_arms :
    (owner : OutputOwner) (lifetime at : ℕ) (a : OutputAuthority) (l : OutputLease)
    → Inv a
    → (acquire owner lifetime at a).0 ≡ ok (OutputResult.lease l)
    → (a.snapshot.state ≡ OutputState.disarmed)
      × (a.snapshot.safe_confirmed ≡ true)
      × (a.snapshot.fault_latched ≡ false)
      × (0 < lifetime)
      × OnSome (λ (p : SafeProfile). lifetime ≤ p.max_lease) a.snapshot.profile
      × (l.owner ≡ owner)
      × (l.expires ≡ at + lifetime)
      × (l.epoch ≡ a.snapshot.epoch + 1)
      × ((acquire owner lifetime at a).1.snapshot.lease ≡ some l)
      × ((acquire owner lifetime at a).1.snapshot.safe_confirmed ≡ false)
unfolding acquire is_revoked checked_add duration_add
acquire_arms owner lifetime at a l v h = ground arith

-- A renewal that succeeds was asked for the current lease while it had time left and no proposal,
-- reservation or dispatch was under way; the replacement differs in its expiry alone, which is
-- later, and is the current lease.
pub renew_extends :
    (l k : OutputLease) (lifetime at : ℕ) (a : OutputAuthority)
    → (renew l lifetime at a).0 ≡ ok k
    → Permits a l at
      × (a.pending ≡ none)
      × (a.transport_reserved ≡ none)
      × (a.snapshot.in_flight ≡ none)
      × (k ≡ record l { expires = at + lifetime })
      × (l.expires < k.expires)
      × ((renew l lifetime at a).1.snapshot.lease ≡ some k)
unfolding renew duration_add
renew_extends l k lifetime at a h = ground (arith, check_lease-Permits l at a)

-- The watchdog takes an expired lease away, and the queued work with it, unless the epochs are
-- exhausted it asks for the safe procedure; a lease with time left it leaves alone.
pub watchdog_expires :
    (at : ℕ) (a : OutputAuthority) (l : OutputLease)
    → a.snapshot.lease ≡ some l
    → (l.expires ≤ at
        → ((watchdog at a).1.snapshot.lease ≡ none)
          × ((watchdog at a).1.pending ≡ none)
          × (is_revoked (watchdog at a).1.snapshot.state ≡ true)
          × (a.snapshot.epoch < u64_max → (watchdog at a).1.safe_obligation_pending ≡ true))
      × (at < l.expires → watchdog at a ≡ (ok tt, a))
unfolding watchdog request_safe checked_add is_revoked
watchdog_expires at a l e = (λ h. ground arith, λ h. ground arith)
