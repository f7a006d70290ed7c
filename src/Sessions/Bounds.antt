-- ===== src/Sessions/Bounds.antt =====
-- apps/lab-runtime/src/sessions.rs: the limits of the store hold after every call. This file has
-- the bounds of one scope and of the store, and that expiry, detaching and resuming keep them.
use lab_runtime.Base.{ℕ, ◌≤◌, ◌≡◌, refl, Bool, arith, length}
use lab_runtime.Sessions.Types.{
  Text, Entry, Scope, SessionStore, max_scopes, max_pending, max_terminal,
  provisioning_retained_bytes, max_pending_scope, max_terminal_scope,
}
use lab_runtime.Sessions.Scopes.{map_values, update, retain}
use lab_runtime.Sessions.Retention.{
  Scopes, pending_of, terminal_of, charge_of, pending_count, terminal_count, charged, is_pending,
  is_terminal, expire, expire_records, keep_entry, keep_scope, recount_provisioning_credit,
}
use lab_runtime.Sessions.Keyed.{EachScope, retain-EachScope, map_values-EachScope, update-EachScope}
use lab_runtime.Sessions.Records.{Dated, select-Ordered, select-Every, count-select, total-select}
use lab_runtime.Sessions.Distinct.{
  Distinct, map_values-Distinct, update-Distinct, retain-Distinct, length-map_values, length-update,
  length-retain, sum_scopes-map_values, sum_scopes-retain, sum_scopes-update_le,
}
use lab_runtime.Sessions.Stamps.{Kept}

module _ {M : Type 0} where
  pub record SoundScope (sc : Scope M) : Type 0 where
    pub kept : Kept sc
    pub pending : pending_of sc ≤ max_pending_scope
    pub terminal : terminal_of sc ≤ max_terminal_scope

  -- What holds of the scopes of a store.
  pub record SoundScopes (scopes : Scopes M) : Type 0 where
    pub distinct : Distinct scopes
    pub each : EachScope (λ k sc. SoundScope sc) scopes
    pub number : length scopes ≤ max_scopes
    pub pending : pending_count scopes ≤ max_pending
    pub terminal : terminal_count scopes ≤ max_terminal
    pub charge : charged scopes ≤ provisioning_retained_bytes

  pub record Bounded (s : SessionStore M) : Type 0 where
    pub sound : SoundScopes s.scopes
    pub credit : s.retained_provisioning_bytes ≡ charged s.scopes

  -- A change of every scope that adds no records.
  pub map_values-SoundScopes :
      (g : Scope M → Scope M)
      → ((sc : Scope M) → SoundScope sc → SoundScope (g sc))
      → ((sc : Scope M) → pending_of (g sc) ≤ pending_of sc)
      → ((sc : Scope M) → terminal_of (g sc) ≤ terminal_of sc)
      → ((sc : Scope M) → charge_of (g sc) ≤ charge_of sc)
      → (scopes : Scopes M) → SoundScopes scopes
      → SoundScopes (map_values g scopes)
  unfolding pending_count terminal_count charged
  map_values-SoundScopes g sound p t c scopes b = record {
    distinct = map_values-Distinct g scopes b.distinct;
    each =
        map_values-EachScope (λ k sc. SoundScope sc) (λ k sc. SoundScope sc) g
          (λ k sc h. sound sc h) scopes b.each;
    number = omega (arith, length-map_values g scopes, b.number);
    pending = omega (arith, sum_scopes-map_values pending_of g p scopes, b.pending);
    terminal = omega (arith, sum_scopes-map_values terminal_of g t scopes, b.terminal);
    charge = omega (arith, sum_scopes-map_values charge_of g c scopes, b.charge);
  }

  pub retain-SoundScopes :
      (p : Scope M → Bool) (scopes : Scopes M) → SoundScopes scopes → SoundScopes (retain p scopes)
  unfolding pending_count terminal_count charged
  retain-SoundScopes p scopes b = record {
    distinct = retain-Distinct p scopes b.distinct;
    each = retain-EachScope (λ k sc. SoundScope sc) p scopes b.each;
    number = omega (arith, length-retain p scopes, b.number);
    pending = omega (arith, sum_scopes-retain pending_of p scopes, b.pending);
    terminal = omega (arith, sum_scopes-retain terminal_of p scopes, b.terminal);
    charge = omega (arith, sum_scopes-retain charge_of p scopes, b.charge);
  }

  pub same_records :
      (c d : Scope M)
      → d.records ≡ c.records
      → d.high_water ≡ c.high_water
      → SoundScope c
      → SoundScope d
  unfolding pending_of terminal_of
  same_records c d records mark b = record {
    kept = record {
      ordered = rw records (rw mark b.kept.ordered);
      dated = rw records b.kept.dated;
    };
    pending = rw records b.pending;
    terminal = rw records b.terminal;
  }

  -- A change of one scope that keeps its records.
  pub update-SoundScopes :
      (k : Text) (g : Scope M → Scope M)
      → ((sc : Scope M) → (g sc).records ≡ sc.records)
      → ((sc : Scope M) → (g sc).high_water ≡ sc.high_water)
      → (scopes : Scopes M) → SoundScopes scopes
      → SoundScopes (update k g scopes)
  unfolding pending_count terminal_count charged pending_of terminal_of charge_of
  update-SoundScopes k g records mark scopes b = record {
    distinct = update-Distinct k g scopes b.distinct;
    each =
        update-EachScope (λ k sc. SoundScope sc) (λ k sc. SoundScope sc) g k
          (λ sc h. same_records sc (g sc) (records sc) (mark sc) h) (λ j sc o h. h) scopes b.each;
    number = omega (arith, length-update k g scopes, b.number);
    pending = omega (
      arith,
      sum_scopes-update_le pending_of k g (λ sc. rw (records sc) (omega arith)) scopes,
      b.pending,
    );
    terminal = omega (
      arith,
      sum_scopes-update_le terminal_of k g (λ sc. rw (records sc) (omega arith)) scopes,
      b.terminal,
    );
    charge = omega (
      arith,
      sum_scopes-update_le charge_of k g (λ sc. rw (records sc) (omega arith)) scopes,
      b.charge,
    );
  }

  expire_records-SoundScope :
      (now : ℕ) (sc : Scope M) → SoundScope sc → SoundScope (expire_records now sc)
  unfolding expire_records pending_of terminal_of
  expire_records-SoundScope now sc b = record {
    kept = record {
      ordered = select-Ordered (keep_entry now) 0 sc.high_water sc.records b.kept.ordered;
      dated = select-Every Dated (keep_entry now) sc.records b.kept.dated;
    };
    pending = omega (arith, count-select is_pending (keep_entry now) sc.records, b.pending);
    terminal = omega (arith, count-select is_terminal (keep_entry now) sc.records, b.terminal);
  }

  pub expire-Bounded : (now : ℕ) (s : SessionStore M) → Bounded s → Bounded (expire now s)
  unfolding expire recount_provisioning_credit expire_records pending_of terminal_of charge_of
  expire-Bounded now s b = record {
    sound = retain-SoundScopes (keep_scope now) (map_values (expire_records now) s.scopes) (
        map_values-SoundScopes (expire_records now) (λ sc h. expire_records-SoundScope now sc h)
          (λ sc. count-select is_pending (keep_entry now) sc.records)
          (λ sc. count-select is_terminal (keep_entry now) sc.records)
          (λ sc. total-select (λ (e : Entry M). e.provisioning_charge) (keep_entry now) sc.records)
          s.scopes b.sound);
    credit = refl;
  }
