-- ===== src/Sessions/Histories.antt =====
-- apps/lab-runtime/src/sessions.rs: an accepted operation stays on record, through every call, until
-- it is completed.
use lab_runtime.Base.{
  ℕ, ◌≤◌, ◌≡◌, refl, Bool, true, false, ◌&&◌, Option, none, some, List, [], ◌∷◌, ◌==◌, u64_eq,
  Bool-cases, Option-cases, inl, inr, arith, ltb, Every, ok, if◌then◌else◌,
}
use lab_runtime.Sessions.Types.{
  Text, text_is, Entry, SessionStore, OperationState, Payload, Admission, terminal,
  outcome_size_limit, max_pending_scope,
}
use lab_runtime.Sessions.ScopeId.{boot_of}
use lab_runtime.Sessions.Scopes.{lookup, update}
use lab_runtime.Sessions.Retention.{trim_scope, expire, recount_provisioning_credit, pending_of}
use lab_runtime.Sessions.Store.{
  new, find, complete_in, record_terminal, complete, outcome_size, resume_checked, open_scope,
  admit_with_gate, status,
}
use lab_runtime.Sessions.History.{Call, perform, run}
use lab_runtime.Sessions.Keyed.{map_values-EachScope}
use lab_runtime.Sessions.Decisions.{admit_in-Admitted, admit_in-refused}
use lab_runtime.Sessions.Marks.{Marks, is_accepted-cases, expire-Marks}
use lab_runtime.Sessions.Once.{Issued, Unissued, new-Issued, perform-Issued, run-Issued}
use lab_runtime.Sessions.Replay.{
  StillPending, expire-StillPending, accept-StillPending, admit-StillPending,
}
use lab_runtime.Sessions.Retaining.{bounds-StillPending}
use lab_runtime.Sessions.Survival.{
  spares, accept-Survival, detach-Survival, resume_scope-Survival, create-Survival,
  completed-Survival,
}
use lab_runtime.Sessions.Stamps.{Kept}
use lab_runtime.Sessions.Bounds.{Bounded}
use lab_runtime.Sessions.Opening.{Issued-Fresh}
use lab_runtime.Sessions.Completing.{Crowded, trim_scope-SoundScope}
use lab_runtime.Sessions.Enforcing.{complete_in-Crowded, outcome_size-terminal}
use lab_runtime.Sessions.Limits.{perform-Bounded, run-Bounded, new-Bounded}

module _ {M : Type 0} (k : Text) (q : ℕ) (e : Entry M) where
  open_scope-Survival :
      (old : Option Text) (c now : ℕ) (s : SessionStore M)
      → Issued s
      → StillPending k q e s.scopes
      → StillPending k q e (open_scope old c now s).1.scopes
  unfolding open_scope resume_checked expire recount_provisioning_credit Issued Marks Unissued
  open_scope-Survival none c now s issued r =
      create-Survival k q e c now (expire now s)
        (Issued-Fresh (expire now s) (expire-Marks (λ k h. ¬ Unissued s k) now s issued))
        (expire-StillPending k q e now s r)
  open_scope-Survival (some old) c now s issued r =
      let alive = expire-StillPending k q e now s r in
      elim (Option-cases (boot_of old)) [
        | inl malformed ↦ rw (open_scope, resume_checked, malformed) alive
        | inr (boot, split) ↦ elim (Bool-cases (text_is boot s.boot_id)) [
          | inl here ↦
              rw (open_scope, resume_checked, split)
                (rw here (resume_scope-Survival k q e old c now (expire now s) alive))
          | inr elsewhere ↦ rw (open_scope, resume_checked, split) (rw elsewhere alive)
        ]
      ]

  record_terminal-Survival :
      (j : Text) (n : ℕ) (state : OperationState) (now : ℕ) (s : SessionStore M)
      → (text_is k j && q == n) ≡ false
      → terminal state ≡ true
      → Bounded s
      → StillPending k q e s.scopes
      → StillPending k q e (record_terminal j n state now s).1.scopes
  unfolding record_terminal recount_provisioning_credit
  record_terminal-Survival j n state now s spared done b r =
      let scopes = update j (complete_in n state now) s.scopes in
      let crowded : Crowded scopes = complete_in-Crowded j n state now s.scopes done b.sound in
      let kept =
        map_values-EachScope (λ i sc. Kept sc × (pending_of sc ≤ max_pending_scope))
          (λ i sc. Kept sc) trim_scope (λ i sc h. (trim_scope-SoundScope sc h.0 h.1).kept) scopes
          crowded.each in
      let completed =
        bounds-StillPending k q e scopes crowded.distinct kept
          (completed-Survival k q e j n state now s.scopes spared r) in
      elim (Option-cases (lookup j s.scopes)) [
        | inl absent ↦ rw (record_terminal, absent) r
        | inr (sc, present) ↦
            rw (record_terminal, present)
              (elim (Option-cases (find n sc.records)) [
                | inl absent ↦ rw absent r
                | inr (x, found) ↦ rw found (elim (Bool-cases (terminal x.state)) [
                  | inl settled ↦ rw settled r
                  | inr open_entry ↦ rw open_entry completed
                ])
              ])
      ]

  complete-Survival :
      (j : Text) (n : ℕ) (state : OperationState) (now : ℕ) (s : SessionStore M)
      → (text_is k j && q == n) ≡ false
      → Bounded s
      → StillPending k q e s.scopes
      → StillPending k q e (complete j n state now s).1.scopes
  unfolding complete
  complete-Survival j n state now s spared b r = elim (Option-cases (outcome_size state)) [
    | inl accepted ↦ rw (complete, accepted) r
    | inr (size, sized) ↦
        rw (complete, sized)
          (elim (Bool-cases (ltb outcome_size_limit size)) [
            | inl long ↦ rw long r
            | inr short ↦ rw short (
                record_terminal-Survival j n state now s spared
                  (outcome_size-terminal state size sized) b r)
          ])
  ]

module _ {M : Type 0} (P : Payload M) where
  admit-Survival :
      (k : Text) (q : ℕ) (e : Entry M) (j : Text) (n : ℕ) (m : M) (now : ℕ) (gate : Bool)
      (s : SessionStore M)
      → StillPending k q e s.scopes
      → StillPending k q e (admit_with_gate P j n m now gate s).1.scopes
  unfolding admit_with_gate
  admit-Survival k q e j n m now gate s r =
      let m' = P.normalized m in
      let alive = expire-StillPending k q e now s r in
      elim (is_accepted-cases (admit_with_gate P j n m now gate s).0) [
        | inl accepted ↦
            let (sc, fact, effect) = admit_in-Admitted P j n m' now gate (expire now s) accepted in
            rw effect (accept-Survival k q e j n m' (P.charge m') now (expire now s) alive)
        | inr refused ↦ rw (admit_in-refused P j n m' now gate (expire now s) refused) alive
      ]

  perform-Survival :
      (k : Text) (q : ℕ) (e : Entry M) (c : Call M) (s : SessionStore M)
      → spares k q c ≡ true
      → Issued s
      → Bounded s
      → StillPending k q e s.scopes
      → StillPending k q e (perform P c s).scopes
  unfolding perform spares
  perform-Survival k q e (Call.hello old c now) s spared issued b r =
      open_scope-Survival k q e old c now s issued r
  perform-Survival k q e (Call.disconnect c now) s spared issued b r =
      detach-Survival k q e c now s r
  perform-Survival k q e (Call.request j n m now gate) s spared issued b r =
      admit-Survival k q e j n m now gate s r
  perform-Survival k q e (Call.outcome j n state now) s spared issued b r =
      complete-Survival k q e j n state now s (ground (arith, spared)) b r
  perform-Survival k q e (Call.timer now) s spared issued b r = expire-StillPending k q e now s r

  run-Survival :
      (k : Text) (q : ℕ) (e : Entry M) (cs : List (Call M)) (s : SessionStore M)
      → Every (λ c. spares k q c ≡ true) cs
      → Issued s
      → Bounded s
      → StillPending k q e s.scopes
      → StillPending k q e (run P cs s).scopes
  unfolding run
  run-Survival k q e [] s spared issued b r = r
  run-Survival k q e (c ∷ cs) s spared issued b r =
      run-Survival k q e cs (perform P c s) spared.1 (perform-Issued P c s issued)
        (perform-Bounded P c s issued b) (perform-Survival k q e c s spared.0 issued b r)

  StillPending-status :
      (k : Text) (q : ℕ) (e : Entry M) (s : SessionStore M)
      → StillPending k q e s.scopes
      → status k q s ≡ Admission.known OperationState.accepted
  unfolding status
  StillPending-status k q e s r =
      let present = r.present in
      let recorded = r.recorded in
      let pending = r.pending in rw (status, present) (rw recorded (rw pending refl))

  -- The record of an accepted request.
  abbrev accepted_entry : ℕ → M → Entry M
  accepted_entry q m = record {
    seq = q;
    payload = P.normalized m;
    state = OperationState.accepted;
    terminal_at = none;
    provisioning_charge = P.charge (P.normalized m);
  }

  pending_after :
      (boot : Text) (s : SessionStore M)
      → new boot ≡ ok s
      → (before : List (Call M)) (k : Text) (q : ℕ) (m : M) (now : ℕ) (gate : Bool)
      → (admit_with_gate P k q m now gate (run P before s)).0 ≡ Admission.accepted
      → (after : List (Call M)) → Every (λ c. spares k q c ≡ true) after
      → StillPending k q
          (accepted_entry q m)
          (run P after (admit_with_gate P k q m now gate (run P before s)).1).scopes
  unfolding admit_with_gate perform
  pending_after boot s fresh before k q m now gate accepted after spared =
      let t = run P before s in
      let m' = P.normalized m in
      let u = (admit_with_gate P k q m now gate t).1 in
      let issued = run-Issued P before s (new-Issued boot s fresh) in
      let bounded = run-Bounded P before s (new-Issued boot s fresh) (new-Bounded boot s fresh) in
      let (sc, fact, effect) = admit_in-Admitted P k q m' now gate (expire now t) accepted in
      let start : StillPending k q (accepted_entry q m) u.scopes = rw effect (
        accept-StillPending k q m' (P.charge m') now sc (expire now t) fact.present
          fact.unrecorded) in
      run-Survival k q (accepted_entry q m) after u spared
        (perform-Issued P (Call.request k q m now gate) t issued)
        (perform-Bounded P (Call.request k q m now gate) t issued bounded) start

  -- An accepted operation is reported as Known Accepted after any calls that are no completion of
  -- it: neither the clock, a lost connection, an evicted outcome nor any other request or outcome
  -- forgets it.
  pub accepted_until_completed :
      (boot : Text) (s : SessionStore M)
      → new boot ≡ ok s
      → (before : List (Call M)) (k : Text) (q : ℕ) (m : M) (now : ℕ) (gate : Bool)
      → (admit_with_gate P k q m now gate (run P before s)).0 ≡ Admission.accepted
      → (after : List (Call M)) → Every (λ c. spares k q c ≡ true) after
      → status k q (run P after (admit_with_gate P k q m now gate (run P before s)).1)
        ≡ Admission.known OperationState.accepted
  accepted_until_completed boot s fresh before k q m now gate accepted after spared =
      StillPending-status k q (accepted_entry q m)
        (run P after (admit_with_gate P k q m now gate (run P before s)).1)
        (pending_after boot s fresh before k q m now gate accepted after spared)

  -- In any store that calls on a new one have led to, let a request be accepted, and any calls follow
  -- that are no completion of it, with expiry, evictions, lost and resumed connections and other
  -- admissions among them. Then a request with its number is answered from the record: Known
  -- Accepted if the normalized payload equals the recorded one, and Conflict otherwise. The
  -- clock, the gate and the capacity have no part in it.
  pub retry_answered :
      (boot : Text) (s : SessionStore M)
      → new boot ≡ ok s
      → (before : List (Call M)) (k : Text) (q : ℕ) (m : M) (now : ℕ) (gate : Bool)
      → (admit_with_gate P k q m now gate (run P before s)).0 ≡ Admission.accepted
      → (after : List (Call M)) → Every (λ c. spares k q c ≡ true) after
      → (m' : M) (now' : ℕ) (gate' : Bool)
      → let t = run P after (admit_with_gate P k q m now gate (run P before s)).1 in
        (admit_with_gate P k q m' now' gate' t).0 ≡ (
          if P.same (P.normalized m) (P.normalized m')
          then Admission.known OperationState.accepted
          else Admission.conflict)
  retry_answered boot s fresh before k q m now gate accepted after spared m' now' gate' =
      admit-StillPending P k q (accepted_entry q m) m' now' gate'
        (run P after (admit_with_gate P k q m now gate (run P before s)).1)
        (pending_after boot s fresh before k q m now gate accepted after spared)
