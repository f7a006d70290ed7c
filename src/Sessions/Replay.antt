-- ===== src/Sessions/Replay.antt =====
-- apps/lab-runtime/src/sessions.rs: a repeated request while its operation is pending.
use lab_runtime.Base.{
  ℕ, ◌≡◌, refl, Bool, true, is_some, none, some, Bool-cases, inl, inr, arith, ltb, if◌then◌else◌,
  count,
}
use lab_runtime.Sessions.Types.{
  Text, OperationState, Admission, Payload, Entry, Scope, SessionStore, terminal,
}
use lab_runtime.Sessions.Scopes.{lookup, map_values}
use lab_runtime.Sessions.Retention.{
  Scopes, expire, expire_records, keep_entry, keep_scope, pending_of, is_pending,
  recount_provisioning_credit,
}
use lab_runtime.Sessions.Store.{find, accept, push_accepted, admit_with_gate, admit_in}
use lab_runtime.Sessions.Lookups.{
  lookup-map_values, lookup-update, lookup-retain, find-append, find-select, count-found,
}

module _ {M : Type 0} where
  -- The scope `k` retains `e` as its pending record of the number `q`.
  pub record StillPending (k : Text) (q : ℕ) (e : Entry M) (scopes : Scopes M) : Type 0 where
    pub scope : Scope M
    pub present : lookup k scopes ≡ some scope
    pub recorded : find q scope.records ≡ some e
    pub pending : e.state ≡ OperationState.accepted
    pub undated : e.terminal_at ≡ none

  keep_undated : (now : ℕ) (e : Entry M) → e.terminal_at ≡ none → keep_entry now e ≡ true
  unfolding keep_entry
  keep_undated now e undated = ground arith

  keep_pending :
      (q : ℕ) (e : Entry M) (now : ℕ) (sc : Scope M)
      → find q sc.records ≡ some e
      → e.state ≡ OperationState.accepted
      → keep_scope now sc ≡ true
  unfolding keep_scope pending_of is_pending terminal
  keep_pending q e now sc found pending =
      let live : is_pending e ≡ true = ground arith in
      let counted : ltb 0 (count is_pending sc.records) ≡ true =
        count-found is_pending q e sc.records found live in
      elim (Bool-cases (is_some sc.attached)) [
        | inl held ↦ rw (keep_scope, held) refl
        | inr detached ↦ rw (keep_scope, pending_of, detached) (rw counted refl)
      ]

  pub expire-StillPending :
      (k : Text) (q : ℕ) (e : Entry M) (now : ℕ) (s : SessionStore M)
      → StillPending k q e s.scopes
      → StillPending k q e (expire now s).scopes
  unfolding expire expire_records recount_provisioning_credit
  expire-StillPending k q e now s p =
      let dated : keep_entry now e ≡ true = keep_undated now e p.undated in
      let kept = find-select (keep_entry now) q e p.scope.records p.recorded dated in
      let alive : keep_scope now (expire_records now p.scope) ≡ true =
        keep_pending q e now (expire_records now p.scope) kept p.pending in
      let mapped = lookup-map_values (expire_records now) k p.scope s.scopes p.present in
      record {
        scope = expire_records now p.scope;
        present =
            lookup-retain (keep_scope now) k (expire_records now p.scope)
              (map_values (expire_records now) s.scopes) mapped alive;
        recorded = kept;
        pending = p.pending;
        undated = p.undated;
      }

  pub accept-StillPending :
      (k : Text) (q : ℕ) (m : M) (charge now : ℕ) (sc : Scope M) (s : SessionStore M)
      → lookup k s.scopes ≡ some sc
      → find q sc.records ≡ none
      → StillPending k q
          (record {
            seq = q;
            payload = m;
            state = OperationState.accepted;
            terminal_at = none;
            provisioning_charge = charge;
          })
          (accept k q m charge now s).scopes
  unfolding accept push_accepted
  accept-StillPending k q m charge now sc s present unrecorded = record {
    scope = push_accepted q m charge now sc;
    present = lookup-update (push_accepted q m charge now) k sc s.scopes present;
    recorded = find-append q _ sc.records unrecorded refl;
    pending = refl;
    undated = refl;
  }

module _ {M : Type 0} (P : Payload M) where
  pub admit-StillPending :
      (k : Text) (q : ℕ) (e : Entry M) (m : M) (now : ℕ) (gate : Bool) (s : SessionStore M)
      → StillPending k q e s.scopes
      → (admit_with_gate P k q m now gate s).0 ≡ (
          if P.same e.payload (P.normalized m)
          then Admission.known OperationState.accepted
          else Admission.conflict)
  unfolding admit_with_gate admit_in
  admit-StillPending k q e m now gate s p =
      let alive = expire-StillPending k q e now s p in
      let present = alive.present in
      let recorded = alive.recorded in
      let pending = alive.pending in
      rw (admit_with_gate, admit_in, present) (rw recorded (rw pending refl))
