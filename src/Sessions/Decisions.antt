-- ===== src/Sessions/Decisions.antt =====
-- apps/lab-runtime/src/sessions.rs: what an admission needed, and what the other answers change.
use lab_runtime.Base.{
  ℕ, ◌+◌, ◌≤◌, ◌<◌, ◌≡◌, ◌≢◌, Bool, true, false, none, some, inl, inr, Bool-cases, Option-cases,
  arith, checked_add, u64_eq, u64_max,
}
use lab_runtime.Sessions.Types.{
  Text, Admission, Payload, Scope, SessionStore, max_pending, max_pending_scope,
  provisioning_retained_bytes,
}
use lab_runtime.Sessions.Scopes.{lookup}
use lab_runtime.Sessions.Retention.{expire, pending_of, pending_count}
use lab_runtime.Sessions.Store.{accept, is_busy, admit_with_gate, admit_in, admit_new, find}

module _ {M : Type 0} where
  -- The room that a new mutation of this charge needs in the scope and in the store.
  pub record HasRoom (charge : ℕ) (sc : Scope M) (s : SessionStore M) : Type 0 where
    pub scope_room : pending_of sc < max_pending_scope
    pub store_room : pending_count s.scopes < max_pending
    pub credit : s.retained_provisioning_bytes + charge ≤ provisioning_retained_bytes

  -- The facts of an admission into `sc`, the scope `k` of the store.
  pub record Admitted (charge : ℕ) (k : Text) (q : ℕ) (gate : Bool) (sc : Scope M)
      (s : SessionStore M) : Type 0 where
    pub present : lookup k s.scopes ≡ some sc
    pub unrecorded : find q sc.records ≡ none
    pub consecutive : q ≡ sc.high_water + 1
    pub representable : q ≤ u64_max
    pub room : HasRoom charge sc s
    pub gated : gate ≡ true

  HasRoom-is_busy :
      (charge : ℕ) (sc : Scope M) (s : SessionStore M)
      → is_busy charge sc s ≡ false
      → HasRoom charge sc s
  unfolding is_busy checked_add
  HasRoom-is_busy charge sc s h = record {
    scope_room = ground arith;
    store_room = ground arith;
    credit = ground arith;
  }

module _ {M : Type 0} (P : Payload M) where
  admit_new-Admitted :
      (k : Text) (q : ℕ) (m : M) (now : ℕ) (gate : Bool) (sc : Scope M) (s : SessionStore M)
      → lookup k s.scopes ≡ some sc
      → find q sc.records ≡ none
      → (admit_new P k q m now gate sc s).0 ≡ Admission.accepted
      → Admitted (P.charge m) k q gate sc s
        × ((admit_new P k q m now gate sc s).1 ≡ accept k q m (P.charge m) now s)
  unfolding admit_new checked_add
  admit_new-Admitted k q m now gate sc s present unrecorded h =
      elim (Bool-cases (is_busy (P.charge m) sc s)) [
        | inl busy ↦ ground arith
        | inr free ↦ (
          record {
            present = present;
            unrecorded = unrecorded;
            consecutive = ground arith;
            representable = ground arith;
            room = HasRoom-is_busy (P.charge m) sc s free;
            gated = ground arith;
          },
          ground arith,
        )
      ]

  admit_new-refused :
      (k : Text) (q : ℕ) (m : M) (now : ℕ) (gate : Bool) (sc : Scope M) (s : SessionStore M)
      → (admit_new P k q m now gate sc s).0 ≢ Admission.accepted
      → (admit_new P k q m now gate sc s).1 ≡ s
  unfolding admit_new
  admit_new-refused k q m now gate sc s h = ground arith

  pub admit_in-Admitted :
      (k : Text) (q : ℕ) (m : M) (now : ℕ) (gate : Bool) (s : SessionStore M)
      → (admit_in P k q m now gate s).0 ≡ Admission.accepted
      → (sc : Scope M) × Admitted (P.charge m) k q gate sc s
        × ((admit_in P k q m now gate s).1 ≡ accept k q m (P.charge m) now s)
  unfolding admit_in
  admit_in-Admitted k q m now gate s h = elim (Option-cases (lookup k s.scopes)) [
    | inl absent ↦ ground arith
    | inr (sc, present) ↦ elim (Option-cases (find q sc.records)) [
      | inr (e, old) ↦ ground arith
      | inl unrecorded ↦
          let fact = admit_new-Admitted k q m now gate sc s present unrecorded (ground arith) in
          (sc, fact.0, ground arith)
    ]
  ]

  pub admit_in-refused :
      (k : Text) (q : ℕ) (m : M) (now : ℕ) (gate : Bool) (s : SessionStore M)
      → (admit_in P k q m now gate s).0 ≢ Admission.accepted
      → (admit_in P k q m now gate s).1 ≡ s
  unfolding admit_in
  admit_in-refused k q m now gate s h = elim (Option-cases (lookup k s.scopes)) [
    | inl absent ↦ ground arith
    | inr (sc, present) ↦ elim (Option-cases (find q sc.records)) [
      | inr (e, old) ↦ ground arith
      | inl unrecorded ↦ ground (arith, admit_new-refused k q m now gate sc s (ground arith))
    ]
  ]

  -- Every answer but Accepted leaves the store as the expiry of that moment leaves it.
  pub refused_keeps_store :
      (k : Text) (q : ℕ) (m : M) (now : ℕ) (gate : Bool) (s : SessionStore M)
      → (admit_with_gate P k q m now gate s).0 ≢ Admission.accepted
      → (admit_with_gate P k q m now gate s).1 ≡ expire now s
  unfolding admit_with_gate
  refused_keeps_store k q m now gate s h =
      admit_in-refused k q (P.normalized m) now gate (expire now s) h
