-- ===== src/Sessions/Admitting.antt =====
-- apps/lab-runtime/src/sessions.rs: admitting a request keeps the limits.
use lab_runtime.Base.{ℕ, ◌+◌, ◌<◌, ◌≡◌, refl, subst, Bool, none, inl, inr, arith}
use lab_runtime.Sessions.Types.{
  Text, Entry, Scope, SessionStore, OperationState, Payload, terminal, max_pending_scope,
}
use lab_runtime.Sessions.Scopes.{update}
use lab_runtime.Sessions.Retention.{
  sum_scopes, pending_of, terminal_of, charge_of, pending_count, terminal_count, charged,
  is_pending, is_terminal, expire,
}
use lab_runtime.Sessions.Store.{accept, push_accepted, admit_with_gate}
use lab_runtime.Sessions.Decisions.{Admitted, admit_in-Admitted, admit_in-refused}
use lab_runtime.Sessions.Marks.{is_accepted-cases}
use lab_runtime.Sessions.Keyed.{update-EachScope, both-EachScope}
use lab_runtime.Sessions.Records.{Dated, Ordered-append, append-Every, count-append, total-append}
use lab_runtime.Sessions.Distinct.{
  update-Distinct, lookup-Distinct, length-update, sum_scopes-update,
}
use lab_runtime.Sessions.Bounds.{SoundScope, Bounded, expire-Bounded}

module _ {M : Type 0} (q : ℕ) (m : M) (charge now : ℕ) where
  push_pending : (sc : Scope M) → pending_of (push_accepted q m charge now sc) ≡ pending_of sc + 1
  unfolding push_accepted pending_of is_pending terminal
  push_pending sc = count-append is_pending sc.records _

  push_terminal :
      (sc : Scope M) → terminal_of (push_accepted q m charge now sc) ≡ terminal_of sc + 0
  unfolding push_accepted terminal_of is_terminal terminal
  push_terminal sc = count-append is_terminal sc.records _

  push_charge : (sc : Scope M) → charge_of (push_accepted q m charge now sc) ≡ charge_of sc + charge
  unfolding push_accepted charge_of
  push_charge sc = total-append (λ (e : Entry M). e.provisioning_charge) sc.records _

  push-SoundScope :
      (sc : Scope M)
      → q ≡ sc.high_water + 1
      → pending_of sc < max_pending_scope
      → SoundScope sc
      → SoundScope (push_accepted q m charge now sc)
  unfolding push_accepted Dated terminal
  push-SoundScope sc next room b = record {
    kept = record {
      ordered = rw next (
          Ordered-append 0 sc.high_water sc.records
            (record {
              seq = sc.high_water + 1;
              payload = m;
              state = OperationState.accepted;
              terminal_at = none;
              provisioning_charge = charge;
            })
            b.kept.ordered refl);
      dated = append-Every Dated sc.records _ b.kept.dated refl;
    };
    pending = omega (arith, push_pending sc, room);
    terminal = omega (arith, push_terminal sc, b.terminal);
  }

  accept-Bounded :
      (k : Text) (gate : Bool) (sc : Scope M) (s : SessionStore M)
      → Admitted charge k q gate sc s
      → Bounded s
      → Bounded (accept k q m charge now s)
  unfolding accept pending_count terminal_count charged
  accept-Bounded k gate sc s fact b =
      let push = push_accepted q m charge now in
      let only = lookup-Distinct k sc s.scopes b.sound.distinct fact.present in
      let sums : (f : Scope M → ℕ)
          → sum_scopes f (update k push s.scopes) + f sc ≡ sum_scopes f s.scopes + f (push sc) =
        λ f. sum_scopes-update f k push sc s.scopes b.sound.distinct fact.present in
      record {
        sound = record {
          distinct = update-Distinct k push s.scopes b.sound.distinct;
          each =
              update-EachScope (λ j c. SoundScope c × (j ≡ k → c ≡ sc)) (λ j c. SoundScope c) push k
                (λ c h. rw (h.1 refl) (
                  push-SoundScope sc fact.consecutive fact.room.scope_room
                    (subst (λ d. SoundScope d) (h.1 refl) h.0)))
                (λ j c o h. h.0) s.scopes
                (both-EachScope (λ j c. SoundScope c) (λ j c. j ≡ k → c ≡ sc) s.scopes b.sound.each
                  only);
          number = omega (arith, length-update k push s.scopes, b.sound.number);
          pending = omega (arith, sums pending_of, push_pending sc, fact.room.store_room);
          terminal = omega (arith, sums terminal_of, push_terminal sc, b.sound.terminal);
          charge = omega (arith, sums charge_of, push_charge sc, fact.room.credit, b.credit);
        };
        credit = omega (arith, sums charge_of, push_charge sc, b.credit);
      }

module _ {M : Type 0} (P : Payload M) where
  pub admit-Bounded :
      (k : Text) (q : ℕ) (m : M) (now : ℕ) (gate : Bool) (s : SessionStore M)
      → Bounded s
      → Bounded (admit_with_gate P k q m now gate s).1
  unfolding admit_with_gate
  admit-Bounded k q m now gate s b =
      let n = P.normalized m in
      let alive = expire-Bounded now s b in
      elim (is_accepted-cases (admit_with_gate P k q m now gate s).0) [
        | inl accepted ↦
            let (sc, fact, effect) = admit_in-Admitted P k q n now gate (expire now s) accepted in
            rw effect (accept-Bounded q n (P.charge n) now k gate sc (expire now s) fact alive)
        | inr refused ↦ rw (admit_in-refused P k q n now gate (expire now s) refused) alive
      ]
