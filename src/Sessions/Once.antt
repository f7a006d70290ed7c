-- ===== src/Sessions/Once.antt =====
-- apps/lab-runtime/src/sessions.rs: a number that a scope has accepted is never accepted again.
use lab_runtime.Base.{
  ℕ, ◌≤◌, ◌≡◌, ◌≢◌, refl, Bool, true, false, none, some, List, [], ◌∷◌, arith, ok, checked_add,
  u64_eq, ap, sym, ◌∙◌,
}
use lab_runtime.Sessions.Types.{
  Text, text_is, Admission, OperationState, Payload, Scope, SessionStore,
}
use lab_runtime.Sessions.ScopeId.{scope_key, scope_key-injective}
use lab_runtime.Sessions.Retention.{expire, recount_provisioning_credit}
use lab_runtime.Sessions.Store.{
  open_scope, resume_checked, resume_scope, create, detach, accept, push_accepted, complete,
  record_terminal, admit_with_gate, admit_in, admit_new, new,
}
use lab_runtime.Sessions.History.{Call, perform, run}
use lab_runtime.Sessions.Decisions.{admit_in-Admitted}
use lab_runtime.Sessions.Marks.{Marks, perform-Marks, expire-Marks}
use lab_runtime.Sessions.Keyed.{
  EachScope, lookup-EachScope, implied-EachScope, update-EachScope, text_is_self,
}

-- The scope counter never falls, and the boot identity stays.
module _ {M : Type 0} where
  create_counter :
      (c now : ℕ) (s : SessionStore M)
      → (s.next_scope ≤ (create c now s).1.next_scope) × ((create c now s).1.boot_id ≡ s.boot_id)
  unfolding create checked_add
  create_counter c now s = (ground arith, ground arith)

  resume_counter :
      (old : Text) (c now : ℕ) (s : SessionStore M)
      → ((resume_checked old c now s).1.next_scope ≡ s.next_scope)
        × ((resume_checked old c now s).1.boot_id ≡ s.boot_id)
  unfolding resume_checked resume_scope
  resume_counter old c now s = (ground arith, ground arith)

  complete_counter :
      (k : Text) (q : ℕ) (state : OperationState) (now : ℕ) (s : SessionStore M)
      → ((complete k q state now s).1.next_scope ≡ s.next_scope)
        × ((complete k q state now s).1.boot_id ≡ s.boot_id)
  unfolding complete record_terminal recount_provisioning_credit
  complete_counter k q state now s = (ground arith, ground arith)

module _ {M : Type 0} (P : Payload M) where
  admit_in_counter :
      (k : Text) (q : ℕ) (m : M) (now : ℕ) (gate : Bool) (s : SessionStore M)
      → ((admit_in P k q m now gate s).1.next_scope ≡ s.next_scope)
        × ((admit_in P k q m now gate s).1.boot_id ≡ s.boot_id)
  unfolding admit_in admit_new accept
  admit_in_counter k q m now gate s = (ground arith, ground arith)

  pub perform_counter :
      (c : Call M) (s : SessionStore M)
      → (s.next_scope ≤ (perform P c s).next_scope) × ((perform P c s).boot_id ≡ s.boot_id)
  unfolding perform open_scope detach admit_with_gate expire recount_provisioning_credit
  perform_counter (Call.hello none c now) s = create_counter c now (expire now s)
  perform_counter (Call.hello (some old) c now) s =
      let same = resume_counter old c now (expire now s) in
      (ground (arith, same), ground (arith, same))
  perform_counter (Call.disconnect c now) s = (ground arith, ground arith)
  perform_counter (Call.request k q m now gate) s =
      let same = admit_in_counter k q (P.normalized m) now gate (expire now s) in
      (ground (arith, same), ground (arith, same))
  perform_counter (Call.outcome k q state now) s =
      let same = complete_counter k q state now s in (ground (arith, same), ground (arith, same))
  perform_counter (Call.timer now) s = (ground arith, ground arith)

differs : (j k : Text) → text_is j k ≡ false → j ≢ k
differs j k other same = let self : text_is j j ≡ true = text_is_self j in ground (arith, self)

-- Every scope has an identity that was issued. A scope identity that is not issued yet is the key
-- of a counter from `next_scope` on.
unfoldable pub Unissued : {M : Type 0} → SessionStore M → Text → Type 0
Unissued s k = (n : ℕ) × (s.next_scope ≤ n) × (k ≡ scope_key s.boot_id n)

unfoldable pub Issued : {M : Type 0} → SessionStore M → Type 0
unfolding Unissued Marks
Issued s = Marks (λ k h. ¬ Unissued s k) s

pub new-Issued : {M : Type 0} (boot : Text) (s : SessionStore M) → new boot ≡ ok s → Issued s
unfolding new Issued Marks EachScope
new-Issued boot s fresh = let empty : s.scopes ≡ [] = ground arith in rw empty tt

-- No scope `k` has a mark below `q`, now or later.
pub record Spent {M : Type 0} (k : Text) (q : ℕ) (s : SessionStore M) : Type 0 where
  pub marked : Marks (λ j h. j ≡ k → q ≤ h) s
  pub issued : ¬ Unissued s k

module _ {M : Type 0} (P : Payload M) where
  perform-Unissued :
      (c : Call M) (s : SessionStore M) (k : Text) → ¬ Unissued s k → ¬ Unissued (perform P c s) k
  unfolding Unissued
  perform-Unissued c s k issued (n, later, key) =
      let (grows, same) = perform_counter P c s in
      issued (n, omega (arith, grows, later), rw (sym same) key)

  pub perform-Issued : (c : Call M) (s : SessionStore M) → Issued s → Issued (perform P c s)
  unfolding Issued Marks Unissued
  perform-Issued c s issued =
      let s' = perform P c s in
      let (grows, same) = perform_counter P c s in
      perform-Marks P (λ k h. ¬ Unissued s' k) c s (λ j h h' higher kept. kept)
        (λ advanced (n, later, key).
          let counters : s.next_scope ≡ n =
            scope_key-injective s.boot_id s.next_scope n (key ∙ ap (λ b. scope_key b n) same) in
          omega (arith, counters, advanced, later))
        (implied-EachScope (λ k sc. ¬ Unissued s k) (λ k sc. ¬ Unissued s' k)
          (λ k sc old. perform-Unissued c s k old) s.scopes issued)

  pub run-Issued : (cs : List (Call M)) (s : SessionStore M) → Issued s → Issued (run P cs s)
  unfolding run
  run-Issued [] s issued = issued
  run-Issued (c ∷ cs) s issued = run-Issued cs (perform P c s) (perform-Issued c s issued)

  perform-Spent :
      (k : Text) (q : ℕ) (c : Call M) (s : SessionStore M) → Spent k q s → Spent k q (perform P c s)
  unfolding Unissued
  perform-Spent k q c s spent = record {
    marked =
        perform-Marks P (λ j h. j ≡ k → q ≤ h) c s
          (λ j h h' higher kept same. omega (arith, kept same, higher))
          (λ advanced same. elim (spent.issued (s.next_scope, omega arith, sym same)) [ ])
          spent.marked;
    issued = perform-Unissued c s k spent.issued;
  }

  run-Spent :
      (k : Text) (q : ℕ) (cs : List (Call M)) (s : SessionStore M)
      → Spent k q s
      → Spent k q (run P cs s)
  unfolding run
  run-Spent k q [] s spent = spent
  run-Spent k q (c ∷ cs) s spent = run-Spent k q cs (perform P c s) (perform-Spent k q c s spent)

  accept-Spent :
      (k : Text) (q : ℕ) (m : M) (charge now : ℕ) (s : SessionStore M)
      → ¬ Unissued s k
      → EachScope (λ j (c : Scope M). ¬ Unissued s j) s.scopes
      → Spent k q (accept k q m charge now s)
  unfolding Marks accept push_accepted Unissued
  accept-Spent k q m charge now s kept issued = record {
    marked =
        update-EachScope (λ j (c : Scope M). ¬ Unissued s j) (λ j c. j ≡ k → q ≤ c.high_water)
          (push_accepted q m charge now) k (λ sc old same. omega arith)
          (λ j sc other old same. elim (differs j k other same) [ ]) s.scopes issued;
    issued = kept;
  }

  admit-Spent :
      (k : Text) (q : ℕ) (m : M) (now : ℕ) (gate : Bool) (s : SessionStore M)
      → Issued s
      → (admit_with_gate P k q m now gate s).0 ≡ Admission.accepted
      → Spent k q (admit_with_gate P k q m now gate s).1
  unfolding Issued Marks admit_with_gate Unissued expire recount_provisioning_credit accept
  admit-Spent k q m now gate s issued h =
      let m' = P.normalized m in
      let alive : EachScope (λ j (c : Scope M). ¬ Unissued s j) (expire now s).scopes =
        expire-Marks (λ j h. ¬ Unissued s j) now s issued in
      let (sc, fact, effect) = admit_in-Admitted P k q m' now gate (expire now s) h in
      let kept =
        lookup-EachScope (λ j (c : Scope M). ¬ Unissued s j) k sc (expire now s).scopes alive
          fact.present in
      rw effect (accept-Spent k q m' (P.charge m') now (expire now s) kept alive)

  Spent-refused :
      (k : Text) (q : ℕ) (m : M) (now : ℕ) (gate : Bool) (s : SessionStore M)
      → Spent k q s
      → (admit_with_gate P k q m now gate s).0 ≢ Admission.accepted
  unfolding Marks admit_with_gate
  Spent-refused k q m now gate s spent h =
      let (sc, fact, effect) = admit_in-Admitted P k q (P.normalized m) now gate (expire now s) h in
      let marked = expire-Marks (λ j h. j ≡ k → q ≤ h) now s spent.marked in
      let mark : k ≡ k → q ≤ sc.high_water =
        lookup-EachScope (λ j (c : Scope M). j ≡ k → q ≤ c.high_water) k sc (expire now s).scopes
          marked fact.present in
      omega (arith, mark refl, fact.consecutive)

module _ {M : Type 0} (P : Payload M) where
  -- A number that a scope has accepted is accepted no second time: not after any further calls,
  -- of any clients at any times, with expiry, eviction, detached and resumed scopes among them.
  pub accepted_once :
      (boot : Text) (s : SessionStore M)
      → new boot ≡ ok s
      → (before : List (Call M)) (k : Text) (q : ℕ) (m : M) (now : ℕ) (gate : Bool)
      → (admit_with_gate P k q m now gate (run P before s)).0 ≡ Admission.accepted
      → (after : List (Call M)) (m' : M) (now' : ℕ) (gate' : Bool)
      → (admit_with_gate P k q m' now' gate'
          (run P after (admit_with_gate P k q m now gate (run P before s)).1)).0
        ≢ Admission.accepted
  accepted_once boot s fresh before k q m now gate accepted after m' now' gate' =
      let start : Issued s = new-Issued boot s fresh in
      Spent-refused P k q m' now' gate'
        (run P after (admit_with_gate P k q m now gate (run P before s)).1)
        (run-Spent P k q after (admit_with_gate P k q m now gate (run P before s)).1
          (admit-Spent P k q m now gate (run P before s) (run-Issued P before s start) accepted))
