-- ===== src/Sessions/Completing.antt =====
-- apps/lab-runtime/src/sessions.rs: `complete` keeps the limits, by the two loops of
-- `enforce_terminal_bounds`.
use lab_runtime.Base.{
  ℕ, zero, suc, ◌≤◌, ◌≡◌, refl, Bool, List, Bool-cases, Option-cases, inl, inr, arith, length,
  count, total, Every, ltb,
}
use lab_runtime.Sessions.Types.{
  Entry, Scope, max_scopes, max_pending, provisioning_retained_bytes, max_pending_scope,
  max_terminal_scope,
}
use lab_runtime.Sessions.Retention.{
  Scopes, pending_of, terminal_of, charge_of, pending_count, charged, is_pending, is_terminal,
  drop_first, has_seq, trim, trim_scope, earliest, all_stamps, drop_seq, evict_oldest,
}
use lab_runtime.Sessions.Keyed.{EachScope, update-EachScope}
use lab_runtime.Sessions.Records.{
  Ordered, Dated, drop_first-Ordered, drop_first-Every, count-drop_first, total-drop_first,
}
use lab_runtime.Sessions.Distinct.{Distinct, length-update, sum_scopes-update_le}
use lab_runtime.Sessions.Eviction.{trim_bounds}
use lab_runtime.Sessions.Stamps.{Kept}
use lab_runtime.Sessions.Bounds.{SoundScope}

module _ {M : Type 0} where
  -- The scopes of a store with terminal records beyond their limits.
  pub record Crowded (scopes : Scopes M) : Type 0 where
    pub distinct : Distinct scopes
    pub each : EachScope (λ k sc. Kept sc × (pending_of sc ≤ max_pending_scope)) scopes
    pub number : length scopes ≤ max_scopes
    pub pending : pending_count scopes ≤ max_pending
    pub charge : charged scopes ≤ provisioning_retained_bytes

  trim-Ordered : (f lo hi : ℕ) (es : List (Entry M)) → Ordered lo es hi → Ordered lo (trim f es) hi
  unfolding trim
  trim-Ordered zero lo hi es o = o
  trim-Ordered (suc f) lo hi es o =
      elim (Bool-cases (ltb max_terminal_scope (count is_terminal es))) [
        | inl more ↦ rw more (
            trim-Ordered f lo hi (drop_first is_terminal es)
              (drop_first-Ordered is_terminal lo hi es o))
        | inr enough ↦ rw enough o
      ]

  trim-Every :
      (Q : Entry M → Type 0) (f : ℕ) (es : List (Entry M)) → Every Q es → Every Q (trim f es)
  unfolding trim
  trim-Every Q zero es each = each
  trim-Every Q (suc f) es each = elim (Bool-cases (ltb max_terminal_scope (count is_terminal es))) [
    | inl more ↦
        rw more
          (trim-Every Q f (drop_first is_terminal es) (drop_first-Every Q is_terminal es each))
    | inr enough ↦ rw enough each
  ]

  pub count-trim :
      (p : Entry M → Bool) (f : ℕ) (es : List (Entry M)) → count p (trim f es) ≤ count p es
  unfolding trim
  count-trim p zero es = omega arith
  count-trim p (suc f) es =
      ground (arith, count-trim p f (drop_first is_terminal es), count-drop_first p is_terminal es)

  pub total-trim :
      (w : Entry M → ℕ) (f : ℕ) (es : List (Entry M)) → total w (trim f es) ≤ total w es
  unfolding trim
  total-trim w zero es = omega arith
  total-trim w (suc f) es =
      ground (arith, total-trim w f (drop_first is_terminal es), total-drop_first w is_terminal es)

  pub trim_scope-SoundScope :
      (sc : Scope M) → Kept sc → pending_of sc ≤ max_pending_scope → SoundScope (trim_scope sc)
  unfolding trim_scope pending_of terminal_of
  trim_scope-SoundScope sc kept room = record {
    kept = record {
      ordered = trim-Ordered (length sc.records) 0 sc.high_water sc.records kept.ordered;
      dated = trim-Every Dated (length sc.records) sc.records kept.dated;
    };
    pending = omega (arith, count-trim is_pending (length sc.records) sc.records, room);
    terminal = trim_bounds (length sc.records) sc.records (omega arith);
  }

  drop_seq-SoundScope : (q : ℕ) (sc : Scope M) → SoundScope sc → SoundScope (drop_seq q sc)
  unfolding drop_seq pending_of terminal_of
  drop_seq-SoundScope q sc b = record {
    kept = record {
      ordered = drop_first-Ordered (has_seq q) 0 sc.high_water sc.records b.kept.ordered;
      dated = drop_first-Every Dated (has_seq q) sc.records b.kept.dated;
    };
    pending = omega (arith, count-drop_first is_pending (has_seq q) sc.records, b.pending);
    terminal = omega (arith, count-drop_first is_terminal (has_seq q) sc.records, b.terminal);
  }

  -- What both loops leave as it is or lower.
  pub record Lower (before after : Scopes M) : Type 0 where
    pub number : length after ≡ length before
    pub pending : pending_count after ≤ pending_count before
    pub charge : charged after ≤ charged before

  pub evict_oldest-Lower : (scopes : Scopes M) → Lower scopes (evict_oldest scopes)
  unfolding evict_oldest drop_seq pending_count charged pending_of charge_of
  evict_oldest-Lower scopes = elim (Option-cases (earliest (all_stamps scopes))) [
    | inl nothing ↦
        rw (evict_oldest, nothing)
          (record { number = refl; pending = omega arith; charge = omega arith })
    | inr ((at, id, q), found) ↦
        rw (evict_oldest, found)
          (record {
            number = length-update id (drop_seq q) scopes;
            pending =
                sum_scopes-update_le pending_of id (drop_seq q)
                  (λ sc. count-drop_first is_pending (has_seq q) sc.records) scopes;
            charge =
                sum_scopes-update_le charge_of id (drop_seq q)
                  (λ sc.
                    total-drop_first (λ (e : Entry M). e.provisioning_charge) (has_seq q)
                      sc.records)
                  scopes;
          })
  ]

  pub evict_oldest-SoundScope :
      (scopes : Scopes M)
      → EachScope (λ k sc. SoundScope sc) scopes
      → EachScope (λ k sc. SoundScope sc) (evict_oldest scopes)
  unfolding evict_oldest
  evict_oldest-SoundScope scopes each = elim (Option-cases (earliest (all_stamps scopes))) [
    | inl nothing ↦ rw (evict_oldest, nothing) each
    | inr ((at, id, q), found) ↦
        rw (evict_oldest, found)
          (update-EachScope (λ k sc. SoundScope sc) (λ k sc. SoundScope sc) (drop_seq q) id
            (λ sc h. drop_seq-SoundScope q sc h) (λ k sc o h. h) scopes each)
  ]
