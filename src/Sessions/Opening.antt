-- ===== src/Sessions/Opening.antt =====
-- apps/lab-runtime/src/sessions.rs: opening a scope and detaching keep the limits.
use lab_runtime.Base.{
  ℕ, ◌<◌, ◌≡◌, ◌≢◌, refl, sym, ◌∙◌, Option, none, some, Bool-cases, Option-cases, inl, inr, arith,
  length, leb, checked_add,
}
use lab_runtime.Sessions.Types.{Text, text_is, Scope, SessionStore, max_scopes}
use lab_runtime.Sessions.ScopeId.{boot_of, scope_key}
use lab_runtime.Sessions.Scopes.{lookup, map_values, update, insert}
use lab_runtime.Sessions.Retention.{
  sum_scopes, pending_of, terminal_of, charge_of, pending_count, terminal_count, charged, expire,
  recount_provisioning_credit,
}
use lab_runtime.Sessions.Store.{
  open_scope, resume_checked, resume_scope, attach, is_foreign, create, fresh_scope, detach,
  detach_scope,
}
use lab_runtime.Sessions.Marks.{Marks, expire-Marks}
use lab_runtime.Sessions.Once.{Issued, Unissued}
use lab_runtime.Sessions.Keyed.{insert-EachScope, implied-EachScope}
use lab_runtime.Sessions.Records.{Ordered}
use lab_runtime.Sessions.Distinct.{
  Fresh, insert-Distinct, length-insert, sum_scopes-insert, sum_scopes-map_values_same,
  sum_scopes-update_same,
}
use lab_runtime.Sessions.Bounds.{
  SoundScope, Bounded, map_values-SoundScopes, update-SoundScopes, expire-Bounded, same_records,
}

module _ {M : Type 0} where
  detach_records :
      (c now : ℕ) (sc : Scope M)
      → ((detach_scope c now sc).records ≡ sc.records)
        × ((detach_scope c now sc).high_water ≡ sc.high_water)
  unfolding detach_scope
  detach_records c now sc = (ground arith, ground arith)

  kept_records-Bounded :
      (g : Scope M → Scope M)
      → ((sc : Scope M) → (g sc).records ≡ sc.records)
      → ((sc : Scope M) → (g sc).high_water ≡ sc.high_water)
      → (s : SessionStore M) → Bounded s
      → Bounded (record s { scopes = map_values g s.scopes })
  unfolding pending_of terminal_of charge_of charged
  kept_records-Bounded g records mark s b = record {
    sound =
        map_values-SoundScopes g (λ sc h. same_records sc (g sc) (records sc) (mark sc) h)
          (λ sc. rw (records sc) (omega arith)) (λ sc. rw (records sc) (omega arith))
          (λ sc. rw (records sc) (omega arith)) s.scopes b.sound;
    credit =
        b.credit
        ∙ sym (sum_scopes-map_values_same charge_of g (λ sc. rw (records sc) refl) s.scopes);
  }

  attached-Bounded :
      (old : Text) (c now : ℕ) (s : SessionStore M)
      → Bounded s
      → Bounded (record s { scopes = update old (attach c now) s.scopes })
  unfolding attach charge_of charged
  attached-Bounded old c now s b = record {
    sound = update-SoundScopes old (attach c now) (λ sc. refl) (λ sc. refl) s.scopes b.sound;
    credit =
        b.credit ∙ sym (sum_scopes-update_same charge_of old (attach c now) (λ sc. refl) s.scopes);
  }

  fresh-SoundScope : (c now : ℕ) → SoundScope {M = M} (fresh_scope c now)
  unfolding fresh_scope pending_of terminal_of Ordered
  fresh-SoundScope c now = record {
    kept = record { ordered = omega arith; dated = tt };
    pending = omega arith;
    terminal = omega arith;
  }

  inserted-Bounded :
      (c now next : ℕ) (s : SessionStore M) (k : Text)
      → Fresh k s.scopes
      → length s.scopes < max_scopes
      → Bounded s
      → Bounded (record s { next_scope = next; scopes = insert k (fresh_scope c now) s.scopes })
  unfolding charged pending_count terminal_count charge_of pending_of terminal_of fresh_scope
  inserted-Bounded c now next s k fresh room b =
      let sums : (f : Scope M → ℕ)
          → f (fresh_scope c now) ≡ 0
          → sum_scopes f (insert k (fresh_scope c now) s.scopes) ≡ sum_scopes f s.scopes =
        λ f h. sum_scopes-insert f k (fresh_scope c now) s.scopes fresh h in
      record {
        sound = record {
          distinct = insert-Distinct k (fresh_scope c now) s.scopes fresh b.sound.distinct;
          each =
              insert-EachScope (λ k sc. SoundScope sc) k (fresh_scope c now) s.scopes
                (fresh-SoundScope c now) b.sound.each;
          number = omega (arith, length-insert k (fresh_scope c now) s.scopes, room);
          pending = omega (arith, sums pending_of refl, b.sound.pending);
          terminal = omega (arith, sums terminal_of refl, b.sound.terminal);
          charge = omega (arith, sums charge_of refl, b.sound.charge);
        };
        credit = b.credit ∙ sym (sums charge_of refl);
      }

  pub detach-Bounded : (c now : ℕ) (s : SessionStore M) → Bounded s → Bounded (detach c now s)
  unfolding detach
  detach-Bounded c now s b =
      kept_records-Bounded (detach_scope c now) (λ sc. (detach_records c now sc).0)
        (λ sc. (detach_records c now sc).1) s b

  resume_scope-Bounded :
      (old : Text) (c now : ℕ) (s : SessionStore M)
      → Bounded s
      → Bounded (resume_scope old c now s).1
  unfolding resume_scope attach
  resume_scope-Bounded old c now s b = elim (Option-cases (lookup old s.scopes)) [
    | inl absent ↦ rw (resume_scope, absent) b
    | inr (sc, present) ↦
        rw (resume_scope, present)
          (elim (Bool-cases (is_foreign sc.attached c)) [
            | inl foreign ↦ rw foreign b
            | inr free ↦ rw free (attached-Bounded old c now s b)
          ])
  ]

  create-Bounded :
      (c now : ℕ) (s : SessionStore M)
      → Fresh (scope_key s.boot_id s.next_scope) s.scopes
      → Bounded s
      → Bounded (create c now s).1
  unfolding create
  create-Bounded c now s fresh b = elim (Bool-cases (leb max_scopes (length s.scopes))) [
    | inl full ↦ rw (create, full) b
    | inr room ↦
        rw (create, room)
          (elim (Option-cases (checked_add s.next_scope 1)) [
            | inl last ↦ rw last b
            | inr (next, more) ↦ rw more (
                inserted-Bounded c now next s (scope_key s.boot_id s.next_scope) fresh
                  (ground arith) b)
          ])
  ]

  pub Issued-Fresh :
      (s : SessionStore M) → Issued s → Fresh (scope_key s.boot_id s.next_scope) s.scopes
  unfolding Issued Unissued Marks Fresh
  Issued-Fresh s issued =
      implied-EachScope (λ k sc. ¬ Unissued s k) (λ k sc. k ≢ scope_key s.boot_id s.next_scope)
        (λ k sc known same. known (s.next_scope, omega arith, same)) s.scopes issued

  pub open_scope-Bounded :
      (old : Option Text) (c now : ℕ) (s : SessionStore M)
      → Issued s
      → Bounded s
      → Bounded (open_scope old c now s).1
  unfolding open_scope resume_checked expire recount_provisioning_credit Issued Marks Unissued
  open_scope-Bounded none c now s issued b =
      create-Bounded c now (expire now s)
        (Issued-Fresh (expire now s) (expire-Marks (λ k h. ¬ Unissued s k) now s issued))
        (expire-Bounded now s b)
  open_scope-Bounded (some old) c now s issued b =
      let alive = expire-Bounded now s b in
      elim (Option-cases (boot_of old)) [
        | inl malformed ↦ rw (open_scope, resume_checked, malformed) alive
        | inr (boot, split) ↦ elim (Bool-cases (text_is boot s.boot_id)) [
          | inl here ↦
              rw (open_scope, resume_checked, split)
                (rw here (resume_scope-Bounded old c now (expire now s) alive))
          | inr elsewhere ↦ rw (open_scope, resume_checked, split) (rw elsewhere alive)
        ]
      ]
