-- ===== src/Sessions/Marks.antt =====
-- apps/lab-runtime/src/sessions.rs: the high-water marks of the scopes
-- never fall, so a predicate that a higher mark keeps holds of every scope for ever.
use lab_runtime.Base.{
  ℕ, zero, suc, ◌≤◌, ◌<◌, ◌≡◌, ◌≢◌, ◌⊎◌, refl, Bool, Option, none, some, Bool-cases, Option-cases,
  inl, inr, arith, checked_add, u64_eq, leb, ltb, length,
}
use lab_runtime.Sessions.Types.{
  Text, text_is, Admission, OperationState, Payload, Scope, SessionStore, terminal, max_scopes,
}
use lab_runtime.Sessions.ScopeId.{boot_of, scope_key}
use lab_runtime.Sessions.Scopes.{lookup, map_values, update}
use lab_runtime.Sessions.Retention.{
  Scopes, expire, expire_records, keep_scope, trim_scope, evict, evict_oldest,
  enforce_terminal_bounds, earliest, all_stamps, drop_seq, recount_provisioning_credit,
  terminal_count,
}
use lab_runtime.Sessions.Store.{
  open_scope, resume_checked, resume_scope, attach, create, fresh_scope, detach, detach_scope,
  is_foreign, accept, push_accepted, complete, complete_in, record_terminal, admit_with_gate, find,
}
use lab_runtime.Sessions.History.{Call, perform}
use lab_runtime.Sessions.Decisions.{admit_in-Admitted, admit_in-refused}
use lab_runtime.Sessions.Keyed.{
  EachScope, lookup-EachScope, retain-EachScope, insert-EachScope, map_values-EachScope,
  update-EachScope,
}

next_larger : (n m : ℕ) → checked_add n 1 ≡ some m → n < m
unfolding checked_add
next_larger n m h = ground arith

pub is_accepted-cases : (a : Admission) → (a ≡ Admission.accepted) ⊎ (a ≢ Admission.accepted)
is_accepted-cases Admission.accepted = inl refl
is_accepted-cases (Admission.known state) = inr (ground arith)
is_accepted-cases Admission.conflict = inr (ground arith)
is_accepted-cases Admission.unknown = inr (ground arith)
is_accepted-cases Admission.gap = inr (ground arith)
is_accepted-cases Admission.busy = inr (ground arith)
is_accepted-cases Admission.scope_unknown = inr (ground arith)

-- A predicate on the identity and the high-water mark of every scope.
module _ {M : Type 0} where
  unfoldable pub Marks : (Text → ℕ → Type 0) → SessionStore M → Type 0
  unfolding EachScope
  Marks W s = EachScope (λ k (sc : Scope M). W k sc.high_water) s.scopes

module _ {M : Type 0} (W : Text → ℕ → Type 0) where
  same_marks :
      (f : Scope M → Scope M)
      → ((sc : Scope M) → (f sc).high_water ≡ sc.high_water)
      → (scopes : Scopes M) → EachScope (λ k (sc : Scope M). W k sc.high_water) scopes
      → EachScope (λ k (sc : Scope M). W k sc.high_water) (map_values f scopes)
  same_marks f same scopes each =
      map_values-EachScope (λ k sc. W k sc.high_water) (λ k sc. W k sc.high_water) f
        (λ k sc w. rw (same sc) w) scopes each

  same_marks_at :
      (j : Text) (f : Scope M → Scope M)
      → ((sc : Scope M) → (f sc).high_water ≡ sc.high_water)
      → (scopes : Scopes M) → EachScope (λ k (sc : Scope M). W k sc.high_water) scopes
      → EachScope (λ k (sc : Scope M). W k sc.high_water) (update j f scopes)
  same_marks_at j f same scopes each =
      update-EachScope (λ k sc. W k sc.high_water) (λ k sc. W k sc.high_water) f j
        (λ sc w. rw (same sc) w) (λ i sc other w. w) scopes each

  pub expire-Marks : (now : ℕ) (s : SessionStore M) → Marks W s → Marks W (expire now s)
  unfolding Marks expire expire_records recount_provisioning_credit
  expire-Marks now s marks =
      retain-EachScope (λ k sc. W k sc.high_water) (keep_scope now)
        (map_values (expire_records now) s.scopes)
        (same_marks (expire_records now) (λ sc. refl) s.scopes marks)

  evict_oldest-Marks :
      (scopes : Scopes M)
      → EachScope (λ k (sc : Scope M). W k sc.high_water) scopes
      → EachScope (λ k (sc : Scope M). W k sc.high_water) (evict_oldest scopes)
  unfolding evict_oldest drop_seq
  evict_oldest-Marks scopes marks = elim (Option-cases (earliest (all_stamps scopes))) [
    | inl nothing ↦ rw (evict_oldest, nothing) marks
    | inr ((at, id, q), found) ↦
        rw (evict_oldest, found) (same_marks_at id (drop_seq q) (λ sc. refl) scopes marks)
  ]

  evict-Marks :
      (f : ℕ) (scopes : Scopes M)
      → EachScope (λ k (sc : Scope M). W k sc.high_water) scopes
      → EachScope (λ k (sc : Scope M). W k sc.high_water) (evict f scopes)
  unfolding evict
  evict-Marks zero scopes marks = marks
  evict-Marks (suc f) scopes marks =
      let rest = evict-Marks f (evict_oldest scopes) (evict_oldest-Marks scopes marks) in
      elim (Bool-cases (ltb 256 (terminal_count scopes))) [
        | inl more ↦ rw more rest
        | inr enough ↦ rw enough marks
      ]

  bounds-Marks :
      (scopes : Scopes M)
      → EachScope (λ k (sc : Scope M). W k sc.high_water) scopes
      → EachScope (λ k (sc : Scope M). W k sc.high_water) (enforce_terminal_bounds scopes)
  unfolding enforce_terminal_bounds trim_scope
  bounds-Marks scopes marks =
      let trimmed = map_values trim_scope scopes in
      evict-Marks (terminal_count trimmed) trimmed (same_marks trim_scope (λ sc. refl) scopes marks)

  record_terminal-Marks :
      (k : Text) (q : ℕ) (state : OperationState) (now : ℕ) (s : SessionStore M)
      → Marks W s
      → Marks W (record_terminal k q state now s).1
  unfolding Marks record_terminal complete_in recount_provisioning_credit
  record_terminal-Marks k q state now s marks =
      let done =
        bounds-Marks (update k (complete_in q state now) s.scopes)
          (same_marks_at k (complete_in q state now) (λ sc. refl) s.scopes marks) in
      elim (Option-cases (lookup k s.scopes)) [
        | inl absent ↦ rw (record_terminal, absent) marks
        | inr (sc, present) ↦
            rw (record_terminal, present)
              (elim (Option-cases (find q sc.records)) [
                | inl absent ↦ rw (record_terminal, absent) marks
                | inr (e, found) ↦
                    rw (record_terminal, found)
                      (elim (Bool-cases (terminal e.state)) [
                        | inl settled ↦ rw (record_terminal, settled) marks
                        | inr open_entry ↦ rw (record_terminal, open_entry) done
                      ])
              ])
      ]

  complete-Marks :
      (k : Text) (q : ℕ) (state : OperationState) (now : ℕ) (s : SessionStore M)
      → Marks W s
      → Marks W (complete k q state now s).1
  unfolding Marks complete
  complete-Marks k q state now s marks = ground (arith, record_terminal-Marks k q state now s marks)

  detach-Marks : (c now : ℕ) (s : SessionStore M) → Marks W s → Marks W (detach c now s)
  unfolding Marks detach detach_scope
  detach-Marks c now s marks = same_marks (detach_scope c now) (λ sc. ground arith) s.scopes marks

  resume_scope-Marks :
      (old : Text) (c now : ℕ) (s : SessionStore M)
      → Marks W s
      → Marks W (resume_scope old c now s).1
  unfolding Marks resume_scope attach
  resume_scope-Marks old c now s marks = elim (Option-cases (lookup old s.scopes)) [
    | inl absent ↦ rw (resume_scope, absent) marks
    | inr (sc, present) ↦
        rw (resume_scope, present)
          (elim (Bool-cases (is_foreign sc.attached c)) [
            | inl foreign ↦ rw (resume_scope, foreign) marks
            | inr free ↦
                rw (resume_scope, free)
                  (same_marks_at old (attach c now) (λ sc. refl) s.scopes marks)
          ])
  ]

  create-Marks :
      (c now : ℕ) (s : SessionStore M)
      → (s.next_scope < (create c now s).1.next_scope → W (scope_key s.boot_id s.next_scope) 0)
      → Marks W s
      → Marks W (create c now s).1
  unfolding Marks create fresh_scope
  create-Marks c now s new_mark marks = elim (Bool-cases (leb max_scopes (length s.scopes))) [
    | inl full ↦ rw full marks
    | inr room ↦ elim (Option-cases (checked_add s.next_scope 1)) [
      | inl last ↦ rw room (rw last marks)
      | inr (next, more) ↦ rw room (
          rw more (
            insert-EachScope (λ k sc. W k sc.high_water) (scope_key s.boot_id s.next_scope)
              (fresh_scope c now) s.scopes
              (new_mark (rw room (rw more (next_larger s.next_scope next more)))) marks))
    ]
  ]

  open_scope-Marks :
      (old : Option Text) (c now : ℕ) (s : SessionStore M)
      → (s.next_scope < (open_scope old c now s).1.next_scope
          → W (scope_key s.boot_id s.next_scope) 0)
      → Marks W s
      → Marks W (open_scope old c now s).1
  unfolding Marks open_scope resume_checked expire recount_provisioning_credit
  open_scope-Marks none c now s new_mark marks =
      create-Marks c now (expire now s) new_mark (expire-Marks now s marks)
  open_scope-Marks (some old) c now s new_mark marks =
      let alive = expire-Marks now s marks in
      elim (Option-cases (boot_of old)) [
        | inl malformed ↦ rw (open_scope, resume_checked, malformed) alive
        | inr (boot, split) ↦ elim (Bool-cases (text_is boot s.boot_id)) [
          | inl here ↦
              rw (open_scope, resume_checked, split)
                (rw here (resume_scope-Marks old c now (expire now s) alive))
          | inr elsewhere ↦ rw (open_scope, resume_checked, split) (rw elsewhere alive)
        ]
      ]

-- An accepted request raises the mark of its scope to its own number.
module _ {M : Type 0} (P : Payload M) (W : Text → ℕ → Type 0) where
  pub accept-Marks :
      (k : Text) (q : ℕ) (m : M) (charge now : ℕ) (s : SessionStore M)
      → W k q
      → Marks W s
      → Marks W (accept k q m charge now s)
  unfolding Marks accept push_accepted
  accept-Marks k q m charge now s raised marks =
      update-EachScope (λ j (sc : Scope M). W j sc.high_water) (λ j sc. W j sc.high_water)
        (push_accepted q m charge now) k (λ sc w. raised) (λ j sc other w. w) s.scopes marks

  admit-Marks :
      (k : Text) (q : ℕ) (m : M) (now : ℕ) (gate : Bool) (s : SessionStore M)
      → ((j : Text) (h h' : ℕ) → h ≤ h' → W j h → W j h')
      → Marks W s
      → Marks W (admit_with_gate P k q m now gate s).1
  unfolding Marks admit_with_gate
  admit-Marks k q m now gate s up marks =
      let alive : Marks W (expire now s) = expire-Marks W now s marks in
      elim (is_accepted-cases (admit_with_gate P k q m now gate s).0) [
        | inl accepted ↦
            let (sc, fact, effect) =
              admit_in-Admitted P k q (P.normalized m) now gate (expire now s) accepted in
            let mark : W k sc.high_water =
              lookup-EachScope (λ j (c : Scope M). W j c.high_water) k sc (expire now s).scopes
                alive fact.present in
            let raised : W k q = up k sc.high_water q (ground (arith, fact.consecutive)) mark in
            rw effect (
              accept-Marks k q (P.normalized m) (P.charge (P.normalized m)) now (expire now s)
                raised alive)
        | inr refused ↦
            rw (admit_in-refused P k q (P.normalized m) now gate (expire now s) refused) alive
      ]

  pub perform-Marks :
      (c : Call M) (s : SessionStore M)
      → ((j : Text) (h h' : ℕ) → h ≤ h' → W j h → W j h')
      → (s.next_scope < (perform P c s).next_scope → W (scope_key s.boot_id s.next_scope) 0)
      → Marks W s
      → Marks W (perform P c s)
  unfolding perform
  perform-Marks (Call.hello old c now) s up new_mark marks =
      open_scope-Marks W old c now s new_mark marks
  perform-Marks (Call.disconnect c now) s up new_mark marks = detach-Marks W c now s marks
  perform-Marks (Call.request k q m now gate) s up new_mark marks =
      admit-Marks k q m now gate s up marks
  perform-Marks (Call.outcome k q state now) s up new_mark marks =
      complete-Marks W k q state now s marks
  perform-Marks (Call.timer now) s up new_mark marks = expire-Marks W now s marks
