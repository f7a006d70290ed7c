-- ===== src/Sessions/Store.antt =====
-- apps/lab-runtime/src/sessions.rs: the operations of the SessionStore. The clock and, for a gated
-- admission, the answer of the gate are arguments.
use lab_runtime.Base.{
  ℕ, ◌+◌, Bool, true, false, ◌||◌, not, Option, none, some, List, [], ◌∷◌, ◌++◌, ◌==◌, u64_eq, ltb,
  leb, if◌then◌else◌, length, Result, ok, err, ok_or, and_then, checked_add,
}
use lab_runtime.Sessions.Types.{
  Text, text_is, OperationState, Admission, SessionError, OpenScope, Payload, Entry, Scope,
  SessionStore, terminal, max_scopes, max_pending, max_pending_scope, outcome_size_limit,
  provisioning_retained_bytes,
}
use lab_runtime.Sessions.ScopeId.{scope_key, boot_valid, boot_of}
use lab_runtime.Sessions.Scopes.{lookup, insert, update, map_values}
use lab_runtime.Sessions.Retention.{
  pending_of, pending_count, terminal_count, expire, enforce_terminal_bounds,
  recount_provisioning_credit,
}

-- The connection that a scope belongs to.
unfoldable pub is_attached : Option ℕ → ℕ → Bool
is_attached none c = false
is_attached (some a) c = a == c

-- `is_some_and(|attached| attached != connection)`.
unfoldable pub is_foreign : Option ℕ → ℕ → Bool
is_foreign none c = false
is_foreign (some a) c = not (a == c)

-- The text of a terminal outcome is bounded; `accepted` is none.
unfoldable pub outcome_size : OperationState → Option ℕ
outcome_size OperationState.accepted = none
outcome_size (OperationState.completed text) = some (length text)
outcome_size (OperationState.failed text) = some (length text)
outcome_size (OperationState.failed_with_result code detail) = some (length code + length detail)

module _ {M : Type 0} where
  unfoldable pub find : ℕ → List (Entry M) → Option (Entry M)
  find q [] = none
  find q (e ∷ es) = let rest = find q es in if e.seq == q then some e else rest

  unfoldable pub new : Text → Result SessionError (SessionStore M)
  unfolding boot_valid
  new boot =
      if boot_valid boot
      then ok
          (record { boot_id = boot; next_scope = 1; scopes = []; retained_provisioning_bytes = 0 })
      else err SessionError.invalid_boot

  unfoldable pub attach : ℕ → ℕ → Scope M → Scope M
  attach c now sc = record sc { attached = some c; last_active = now }

  -- The branch of `open` on a scope of this process.
  unfoldable pub resume_scope :
      Text → ℕ → ℕ → SessionStore M → Result SessionError OpenScope × SessionStore M
  unfolding attach is_foreign lookup update
  resume_scope old c now s = elim (lookup old s.scopes) [
    | none ↦ (err SessionError.scope_unknown, s)
    | some sc ↦ if is_foreign sc.attached c then (err SessionError.scope_in_use, s) else (
      and_then (ok_or (checked_add sc.high_water 1) SessionError.counter_exhausted)
          (λ next. ok (record { scope = old; next_seq = next })),
      record s { scopes = update old (attach c now) s.scopes },
    )
  ]

  unfoldable pub resume_checked :
      Text → ℕ → ℕ → SessionStore M → Result SessionError OpenScope × SessionStore M
  unfolding resume_scope boot_of text_is
  resume_checked old c now s = elim (boot_of old) [
    | none ↦ (err SessionError.scope_unknown, s)
    | some boot ↦
        if text_is boot s.boot_id
        then resume_scope old c now s
        else (err SessionError.instance_changed, s)
  ]

  unfoldable pub fresh_scope : ℕ → ℕ → Scope M
  fresh_scope c now = record { attached = some c; high_water = 0; last_active = now; records = [] }

  unfoldable pub create : ℕ → ℕ → SessionStore M → Result SessionError OpenScope × SessionStore M
  unfolding fresh_scope scope_key insert checked_add
  create c now s =
      if leb max_scopes (length s.scopes)
      then (err SessionError.scope_capacity, s)
      else elim (checked_add s.next_scope 1) [
        | none ↦ (err SessionError.counter_exhausted, s)
        | some next ↦
            let id = scope_key s.boot_id s.next_scope in
            (
              ok (record { scope = id; next_seq = 1 }),
              record s { next_scope = next; scopes = insert id (fresh_scope c now) s.scopes },
            )
      ]

  unfoldable pub open_scope :
      Option Text → ℕ → ℕ → SessionStore M → Result SessionError OpenScope × SessionStore M
  unfolding resume_checked create expire
  open_scope none c now s = create c now (expire now s)
  open_scope (some old) c now s = resume_checked old c now (expire now s)

  unfoldable pub detach_scope : ℕ → ℕ → Scope M → Scope M
  unfolding is_attached
  detach_scope c now sc =
      if is_attached sc.attached c then record sc { attached = none; last_active = now } else sc

  unfoldable pub detach : ℕ → ℕ → SessionStore M → SessionStore M
  unfolding detach_scope map_values
  detach c now s = record s { scopes = map_values (detach_scope c now) s.scopes }

  unfoldable pub push_accepted : ℕ → M → ℕ → ℕ → Scope M → Scope M
  push_accepted q m charge now sc = record sc {
    high_water = q;
    last_active = now;
    records =
        sc.records
        ++ record {
          seq = q;
          payload = m;
          state = OperationState.accepted;
          terminal_at = none;
          provisioning_charge = charge;
        }
          ∷ [];
  }

  -- The reservation of a new number.
  unfoldable pub accept : Text → ℕ → M → ℕ → ℕ → SessionStore M → SessionStore M
  unfolding push_accepted update
  accept k q m charge now s = record s {
    scopes = update k (push_accepted q m charge now) s.scopes;
    retained_provisioning_bytes = s.retained_provisioning_bytes + charge;
  }

  -- The pressure checks on a next consecutive number.
  unfoldable pub is_busy : ℕ → Scope M → SessionStore M → Bool
  unfolding pending_of pending_count checked_add
  is_busy charge sc s =
      leb max_pending_scope (pending_of sc)
      || leb max_pending (pending_count s.scopes)
      || elim (checked_add s.retained_provisioning_bytes charge) [
        | none ↦ true
        | some retained ↦ ltb provisioning_retained_bytes retained
      ]

  unfoldable pub complete_entry : ℕ → OperationState → ℕ → List (Entry M) → List (Entry M)
  complete_entry q outcome now [] = []
  complete_entry q outcome now (e ∷ es) =
      let rest = complete_entry q outcome now es in
      if e.seq == q then record e { state = outcome; terminal_at = some now } ∷ es else e ∷ rest

  unfoldable pub complete_in : ℕ → OperationState → ℕ → Scope M → Scope M
  unfolding complete_entry
  complete_in q outcome now sc = record sc { records = complete_entry q outcome now sc.records }

  unfoldable pub record_terminal :
      Text
      → ℕ
      → OperationState
      → ℕ
      → SessionStore M
      → Result SessionError (Unit {0}) × SessionStore M
  unfolding lookup find terminal update complete_in enforce_terminal_bounds
      recount_provisioning_credit
  record_terminal k q outcome now s = elim (lookup k s.scopes) [
    | none ↦ (err SessionError.scope_unknown, s)
    | some sc ↦ elim (find q sc.records) [
      | none ↦ (err SessionError.invalid_outcome, s)
      | some e ↦ if terminal e.state then (err SessionError.invalid_outcome, s) else (
        ok tt,
        recount_provisioning_credit (record s {
          scopes = enforce_terminal_bounds (update k (complete_in q outcome now) s.scopes);
        }),
      )
    ]
  ]

  unfoldable pub complete :
      Text
      → ℕ
      → OperationState
      → ℕ
      → SessionStore M
      → Result SessionError (Unit {0}) × SessionStore M
  unfolding record_terminal outcome_size
  complete k q outcome now s = elim (outcome_size outcome) [
    | none ↦ (err SessionError.invalid_outcome, s)
    | some size ↦
        if ltb outcome_size_limit size
        then (err SessionError.invalid_outcome, s)
        else record_terminal k q outcome now s
  ]

  unfoldable pub status : Text → ℕ → SessionStore M → Admission
  unfolding lookup find
  status k q s = elim (lookup k s.scopes) [
    | none ↦ Admission.scope_unknown
    | some sc ↦ elim (find q sc.records) [
      | none ↦ Admission.unknown
      | some e ↦ Admission.known e.state
    ]
  ]

  unfoldable pub next_seq : Text → SessionStore M → Result SessionError ℕ
  unfolding lookup checked_add
  next_seq k s =
      and_then (ok_or (lookup k s.scopes) SessionError.scope_unknown)
        (λ (sc : Scope M). ok_or (checked_add sc.high_water 1) SessionError.counter_exhausted)

  unfoldable pub counts : SessionStore M → ℕ × ℕ × ℕ
  unfolding pending_count terminal_count
  counts s = (length s.scopes, pending_count s.scopes, terminal_count s.scopes)

module _ {M : Type 0} (P : Payload M) where
  -- The decision on a number that no retained record has.
  unfoldable pub admit_new :
      Text → ℕ → M → ℕ → Bool → Scope M → SessionStore M → Admission × SessionStore M
  unfolding is_busy accept checked_add
  admit_new k q m now gate sc s =
      if leb q sc.high_water then (Admission.unknown, s) else elim (checked_add sc.high_water 1) [
        | none ↦ (Admission.gap, s)
        | some next ↦
            if not (next == q)
            then (Admission.gap, s)
            else if is_busy (P.charge m) sc s
            then (Admission.busy, s)
            else if not gate
            then (Admission.busy, s)
            else (Admission.accepted, accept k q m (P.charge m) now s)
      ]

  unfoldable pub admit_in : Text → ℕ → M → ℕ → Bool → SessionStore M → Admission × SessionStore M
  unfolding admit_new lookup find
  admit_in k q m now gate s = elim (lookup k s.scopes) [
    | none ↦ (Admission.scope_unknown, s)
    | some sc ↦ elim (find q sc.records) [
      | some e ↦ (if P.same e.payload m then Admission.known e.state else Admission.conflict, s)
      | none ↦ admit_new k q m now gate sc s
    ]
  ]

  unfoldable pub admit_with_gate :
      Text → ℕ → M → ℕ → Bool → SessionStore M → Admission × SessionStore M
  unfolding admit_in expire
  admit_with_gate k q m now gate s = admit_in k q (P.normalized m) now gate (expire now s)

  unfoldable pub admit : Text → ℕ → M → ℕ → SessionStore M → Admission × SessionStore M
  unfolding admit_with_gate
  admit k q m now s = admit_with_gate k q m now true s
