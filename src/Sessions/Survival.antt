-- ===== src/Sessions/Survival.antt =====
-- apps/lab-runtime/src/sessions.rs: the steps of the calls keep a pending record; the completion of
-- another number among them.
use lab_runtime.Base.{
  ℕ, ◌≡◌, ◌≢◌, sym, Bool, true, false, ◌&&◌, not, some, List, [], ◌∷◌, ◌++◌, ◌==◌, u64_eq,
  Bool-cases, Option-cases, inl, inr, arith, length, leb, checked_add,
}
use lab_runtime.Sessions.Types.{
  Text, text_is, Entry, Scope, SessionStore, OperationState, max_scopes,
}
use lab_runtime.Sessions.ScopeId.{scope_key}
use lab_runtime.Sessions.Scopes.{lookup, update, insert}
use lab_runtime.Sessions.Retention.{Scopes}
use lab_runtime.Sessions.Store.{
  find, complete_entry, complete_in, accept, push_accepted, detach, detach_scope, attach,
  fresh_scope, create, resume_scope, is_foreign,
}
use lab_runtime.Sessions.History.{Call}
use lab_runtime.Sessions.Keyed.{lookup-EachScope}
use lab_runtime.Sessions.Distinct.{Fresh, text_differs}
use lab_runtime.Sessions.Replay.{StillPending}
use lab_runtime.Sessions.Retaining.{update-StillPending, map_values-StillPending, lookup_inserted}

module _ {M : Type 0} where
  -- The call is no completion of the number `q` of the scope `k`.
  unfoldable pub spares : Text → ℕ → Call M → Bool
  spares k q (Call.outcome j n state now) = not (text_is k j && q == n)
  spares k q _ = true

  find-kept :
      (q : ℕ) (e x : Entry M) (es : List (Entry M))
      → find q es ≡ some e
      → find q (es ++ x ∷ []) ≡ some e
  unfolding find
  find-kept q e x [] found = ground arith
  find-kept q e x (y ∷ es) found = elim (Bool-cases (y.seq == q)) [
    | inl here ↦ ground arith
    | inr past ↦ ground (arith, find-kept q e x es (ground arith))
  ]

  find-complete_entry :
      (q n : ℕ) (state : OperationState) (now : ℕ) (e : Entry M) (es : List (Entry M))
      → (q == n) ≡ false
      → find q es ≡ some e
      → find q (complete_entry n state now es) ≡ some e
  unfolding find complete_entry
  find-complete_entry q n state now e [] differs found = ground arith
  find-complete_entry q n state now e (y ∷ es) differs found = elim (Bool-cases (y.seq == q)) [
    | inl here ↦ ground arith
    | inr past ↦ ground (arith, find-complete_entry q n state now e es differs (ground arith))
  ]

  module _ (k : Text) (q : ℕ) (e : Entry M) where
    pub accept-Survival :
        (j : Text) (n : ℕ) (m : M) (charge now : ℕ) (s : SessionStore M)
        → StillPending k q e s.scopes
        → StillPending k q e (accept j n m charge now s).scopes
    unfolding accept push_accepted
    accept-Survival j n m charge now s r =
        update-StillPending (push_accepted n m charge now) j k q e s.scopes
          (λ sc here present found. find-kept q e _ sc.records found) r

    pub detach-Survival :
        (c now : ℕ) (s : SessionStore M)
        → StillPending k q e s.scopes
        → StillPending k q e (detach c now s).scopes
    unfolding detach detach_scope
    detach-Survival c now s r =
        map_values-StillPending (detach_scope c now) k q e s.scopes (λ sc found. ground arith) r

    pub resume_scope-Survival :
        (old : Text) (c now : ℕ) (s : SessionStore M)
        → StillPending k q e s.scopes
        → StillPending k q e (resume_scope old c now s).1.scopes
    unfolding resume_scope attach
    resume_scope-Survival old c now s r =
        let attached =
          update-StillPending (attach c now) old k q e s.scopes (λ sc here present found. found)
            r in
        elim (Option-cases (lookup old s.scopes)) [
          | inl absent ↦ rw (resume_scope, absent) r
          | inr (sc, present) ↦
              rw (resume_scope, present)
                (elim (Bool-cases (is_foreign sc.attached c)) [
                  | inl foreign ↦ rw foreign r
                  | inr free ↦ rw free attached
                ])
        ]

    inserted-Survival :
        (j : Text) (w : Scope M) (scopes : Scopes M)
        → Fresh j scopes
        → StillPending k q e scopes
        → StillPending k q e (insert j w scopes)
    unfolding Fresh
    inserted-Survival j w scopes fresh r =
        let apart : k ≢ j = lookup-EachScope (λ i v. i ≢ j) k r.scope scopes fresh r.present in
        record {
          scope = r.scope;
          present =
              lookup_inserted j k w r.scope scopes (text_differs j k (λ h. apart (sym h))) fresh
                r.present;
          recorded = r.recorded;
          pending = r.pending;
          undated = r.undated;
        }

    pub create-Survival :
        (c now : ℕ) (s : SessionStore M)
        → Fresh (scope_key s.boot_id s.next_scope) s.scopes
        → StillPending k q e s.scopes
        → StillPending k q e (create c now s).1.scopes
    unfolding create
    create-Survival c now s fresh r = elim (Bool-cases (leb max_scopes (length s.scopes))) [
      | inl full ↦ rw (create, full) r
      | inr room ↦
          rw (create, room)
            (elim (Option-cases (checked_add s.next_scope 1)) [
              | inl last ↦ rw last r
              | inr (next, more) ↦ rw more (
                  inserted-Survival (scope_key s.boot_id s.next_scope) (fresh_scope c now) s.scopes
                    fresh r)
            ])
    ]

    pub completed-Survival :
        (j : Text) (n : ℕ) (state : OperationState) (now : ℕ) (scopes : Scopes M)
        → (text_is k j && q == n) ≡ false
        → StillPending k q e scopes
        → StillPending k q e (update j (complete_in n state now) scopes)
    unfolding complete_in
    completed-Survival j n state now scopes spared r =
        update-StillPending (complete_in n state now) j k q e scopes
          (λ sc here present found.
            find-complete_entry q n state now e sc.records (ground (arith, spared, here)) found)
          r
