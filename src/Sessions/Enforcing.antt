-- ===== src/Sessions/Enforcing.antt =====
-- apps/lab-runtime/src/sessions.rs: `complete` keeps the limits.
use lab_runtime.Base.{
  ℕ, zero, suc, ◌≤◌, ◌∙◌, ◌≡◌, refl, true, some, Bool-cases, Option-cases, inl, inr, arith, length,
  ltb,
}
use lab_runtime.Sessions.Types.{
  Text, Entry, Scope, SessionStore, OperationState, terminal, max_pending_scope, max_terminal,
  outcome_size_limit,
}
use lab_runtime.Sessions.Scopes.{lookup, map_values, update}
use lab_runtime.Sessions.Retention.{
  Scopes, pending_of, charge_of, pending_count, terminal_count, charged, is_pending, trim_scope,
  evict_oldest, evict, enforce_terminal_bounds, recount_provisioning_credit,
}
use lab_runtime.Sessions.Store.{find, complete_in, record_terminal, complete, outcome_size}
use lab_runtime.Sessions.Keyed.{
  EachScope, map_values-EachScope, update-EachScope, implied-EachScope,
}
use lab_runtime.Sessions.Records.{
  complete_entry-Ordered, complete_entry-Dated, pending-complete_entry, charge-complete_entry,
}
use lab_runtime.Sessions.Distinct.{
  Distinct, update-Distinct, map_values-Distinct, length-update, length-map_values,
  sum_scopes-map_values, sum_scopes-update_le,
}
use lab_runtime.Sessions.Stamps.{Kept}
use lab_runtime.Sessions.Global.{evict_bounds, evict_oldest-Distinct}
use lab_runtime.Sessions.Completing.{
  Crowded, Lower, trim_scope-SoundScope, evict_oldest-Lower, evict_oldest-SoundScope, count-trim,
  total-trim,
}
use lab_runtime.Sessions.Bounds.{SoundScope, SoundScopes, Bounded}

pub outcome_size-terminal :
    (state : OperationState) (n : ℕ) → outcome_size state ≡ some n → terminal state ≡ true
unfolding outcome_size terminal
outcome_size-terminal state n h = ground arith

module _ {M : Type 0} where
  evict-Lower : (f : ℕ) (scopes : Scopes M) → Lower scopes (evict f scopes)
  unfolding evict
  evict-Lower zero scopes = record { number = refl; pending = omega arith; charge = omega arith }
  evict-Lower (suc f) scopes = elim (Bool-cases (ltb max_terminal (terminal_count scopes))) [
    | inl more ↦
        let step = evict_oldest-Lower scopes in
        let rest = evict-Lower f (evict_oldest scopes) in
        rw more (record {
          number = rest.number ∙ step.number;
          pending = omega (arith, rest.pending, step.pending);
          charge = omega (arith, rest.charge, step.charge);
        })
    | inr enough ↦ rw enough (record { number = refl; pending = omega arith; charge = omega arith })
  ]

  evict-SoundScope :
      (f : ℕ) (scopes : Scopes M)
      → EachScope (λ k sc. SoundScope sc) scopes
      → EachScope (λ k sc. SoundScope sc) (evict f scopes)
  unfolding evict
  evict-SoundScope zero scopes each = each
  evict-SoundScope (suc f) scopes each =
      elim (Bool-cases (ltb max_terminal (terminal_count scopes))) [
        | inl more ↦
            rw more (evict-SoundScope f (evict_oldest scopes) (evict_oldest-SoundScope scopes each))
        | inr enough ↦ rw enough each
      ]

  evict-Distinct : (f : ℕ) (scopes : Scopes M) → Distinct scopes → Distinct (evict f scopes)
  unfolding evict
  evict-Distinct zero scopes d = d
  evict-Distinct (suc f) scopes d = elim (Bool-cases (ltb max_terminal (terminal_count scopes))) [
    | inl more ↦ rw more (evict-Distinct f (evict_oldest scopes) (evict_oldest-Distinct scopes d))
    | inr enough ↦ rw enough d
  ]

  trim_pending : (sc : Scope M) → pending_of (trim_scope sc) ≤ pending_of sc
  unfolding trim_scope pending_of
  trim_pending sc = count-trim is_pending (length sc.records) sc.records

  trim_charge : (sc : Scope M) → charge_of (trim_scope sc) ≤ charge_of sc
  unfolding trim_scope charge_of
  trim_charge sc =
      total-trim (λ (e : Entry M). e.provisioning_charge) (length sc.records) sc.records

  enforce-SoundScopes :
      (scopes : Scopes M) → Crowded scopes → SoundScopes (enforce_terminal_bounds scopes)
  unfolding enforce_terminal_bounds pending_count charged
  enforce-SoundScopes scopes c =
      let trimmed = map_values trim_scope scopes in
      let fuel = terminal_count trimmed in
      let distinct = map_values-Distinct trim_scope scopes c.distinct in
      let each =
        map_values-EachScope (λ k sc. Kept sc × (pending_of sc ≤ max_pending_scope))
          (λ k sc. SoundScope sc) trim_scope (λ k sc h. trim_scope-SoundScope sc h.0 h.1) scopes
          c.each in
      let low = evict-Lower fuel trimmed in
      record {
        distinct = evict-Distinct fuel trimmed distinct;
        each = evict-SoundScope fuel trimmed each;
        number = omega (arith, low.number, length-map_values trim_scope scopes, c.number);
        pending = omega (
          arith,
          low.pending,
          sum_scopes-map_values pending_of trim_scope trim_pending scopes,
          c.pending,
        );
        terminal =
            evict_bounds fuel trimmed distinct
              (implied-EachScope (λ k sc. SoundScope sc) (λ k sc. Kept sc) (λ k sc h. h.kept)
                trimmed each)
              (omega arith);
        charge = omega (
          arith,
          low.charge,
          sum_scopes-map_values charge_of trim_scope trim_charge scopes,
          c.charge,
        );
      }

  pub complete_in-Crowded :
      (k : Text) (q : ℕ) (state : OperationState) (now : ℕ) (scopes : Scopes M)
      → terminal state ≡ true
      → SoundScopes scopes
      → Crowded (update k (complete_in q state now) scopes)
  unfolding complete_in pending_count charged pending_of charge_of
  complete_in-Crowded k q state now scopes done b = record {
    distinct = update-Distinct k (complete_in q state now) scopes b.distinct;
    each =
        update-EachScope (λ j sc. SoundScope sc)
          (λ j sc. Kept sc × (pending_of sc ≤ max_pending_scope)) (complete_in q state now) k
          (λ sc h. (
            record {
              ordered =
                  complete_entry-Ordered q state now 0 sc.high_water sc.records h.kept.ordered;
              dated = complete_entry-Dated q state now sc.records done h.kept.dated;
            },
            omega (arith, pending-complete_entry q state now sc.records done, h.pending),
          ))
          (λ j sc o h. (h.kept, h.pending)) scopes b.each;
    number = omega (arith, length-update k (complete_in q state now) scopes, b.number);
    pending = omega (
      arith,
      b.pending,
      sum_scopes-update_le pending_of k (complete_in q state now)
          (λ sc. pending-complete_entry q state now sc.records done) scopes,
    );
    charge = omega (
      arith,
      b.charge,
      sum_scopes-update_le charge_of k (complete_in q state now)
          (λ sc. omega (arith, charge-complete_entry q state now sc.records)) scopes,
    );
  }

  record_terminal-Bounded :
      (k : Text) (q : ℕ) (state : OperationState) (now : ℕ) (s : SessionStore M)
      → terminal state ≡ true
      → Bounded s
      → Bounded (record_terminal k q state now s).1
  unfolding record_terminal recount_provisioning_credit
  record_terminal-Bounded k q state now s done b =
      let scopes = update k (complete_in q state now) s.scopes in
      let recorded : Bounded
          (recount_provisioning_credit (record s { scopes = enforce_terminal_bounds scopes })) =
        record {
          sound =
              enforce-SoundScopes scopes (complete_in-Crowded k q state now s.scopes done b.sound);
          credit = refl;
        } in
      elim (Option-cases (lookup k s.scopes)) [
        | inl absent ↦ rw (record_terminal, absent) b
        | inr (sc, present) ↦
            rw (record_terminal, present)
              (elim (Option-cases (find q sc.records)) [
                | inl absent ↦ rw absent b
                | inr (e, found) ↦ rw found (elim (Bool-cases (terminal e.state)) [
                  | inl settled ↦ rw settled b
                  | inr open_entry ↦ rw open_entry recorded
                ])
              ])
      ]

  pub complete-Bounded :
      (k : Text) (q : ℕ) (state : OperationState) (now : ℕ) (s : SessionStore M)
      → Bounded s
      → Bounded (complete k q state now s).1
  unfolding complete
  complete-Bounded k q state now s b = elim (Option-cases (outcome_size state)) [
    | inl accepted ↦ rw (complete, accepted) b
    | inr (n, sized) ↦
        rw (complete, sized)
          (elim (Bool-cases (ltb outcome_size_limit n)) [
            | inl long ↦ rw long b
            | inr short ↦
                rw short
                  (record_terminal-Bounded k q state now s (outcome_size-terminal state n sized) b)
          ])
  ]
