-- ===== src/Sessions/Global.antt =====
-- apps/lab-runtime/src/sessions.rs: the global loop of `enforce_terminal_bounds` ends within its fuel
-- and its bound.
use lab_runtime.Base.{
  ℕ, zero, suc, ◌+◌, ◌≤◌, ◌<◌, ◌≡◌, ◌≢◌, none, List, [], ◌∷◌, u64_eq, ltb, Bool-cases, Option-cases,
  inl, inr, arith, length, length-append, count, Every,
}
use lab_runtime.Sessions.Types.{Text, Entry, Scope, max_terminal}
use lab_runtime.Sessions.Retention.{
  Scopes, is_terminal, has_seq, stamps, all_stamps, earliest, drop_seq, evict_oldest, evict,
  terminal_of, terminal_count, sum_scopes,
}
use lab_runtime.Sessions.Keyed.{EachScope, update-EachScope}
use lab_runtime.Sessions.Records.{Dated, drop_first-Ordered, drop_first-Every}
use lab_runtime.Sessions.Distinct.{Distinct, update-Distinct}
use lab_runtime.Sessions.Stamps.{Kept, drop_held, earliest-Holds}

earliest_found : (xs : List (ℕ × Text × ℕ)) → 0 < length xs → earliest xs ≢ none
unfolding earliest
earliest_found [] h = ground arith
earliest_found (x ∷ xs) h = ground arith

module _ {M : Type 0} where
  -- While more terminal records than allowed are left, there is a stamp.
  count-stamps :
      (id : Text) (es : List (Entry M))
      → Every Dated es
      → count is_terminal es ≤ length (stamps id es)
  unfolding stamps Dated is_terminal
  count-stamps id [] dated = omega arith
  count-stamps id (e ∷ es) dated = ground (arith, dated, count-stamps id es dated.1)

  terminal_count-all_stamps :
      (scopes : Scopes M)
      → EachScope (λ k sc. Kept sc) scopes
      → terminal_count scopes ≤ length (all_stamps scopes)
  unfolding terminal_count sum_scopes terminal_of all_stamps EachScope
  terminal_count-all_stamps [] kept = omega arith
  terminal_count-all_stamps ((k, sc) ∷ rest) kept = omega (
    arith,
    count-stamps k sc.records kept.0.dated,
    terminal_count-all_stamps rest kept.1,
    length-append (stamps k sc.records) (all_stamps rest),
  )

  pub drop_seq-Kept : (q : ℕ) (sc : Scope M) → Kept sc → Kept (drop_seq q sc)
  unfolding drop_seq
  drop_seq-Kept q sc kept = record {
    ordered = drop_first-Ordered (has_seq q) 0 sc.high_water sc.records kept.ordered;
    dated = drop_first-Every Dated (has_seq q) sc.records kept.dated;
  }

  pub evict_oldest-Kept :
      (scopes : Scopes M)
      → EachScope (λ k sc. Kept sc) scopes
      → EachScope (λ k sc. Kept sc) (evict_oldest scopes)
  unfolding evict_oldest
  evict_oldest-Kept scopes kept = elim (Option-cases (earliest (all_stamps scopes))) [
    | inl nothing ↦ rw (evict_oldest, nothing) kept
    | inr ((at, id, q), found) ↦
        rw (evict_oldest, found)
          (update-EachScope (λ k sc. Kept sc) (λ k sc. Kept sc) (drop_seq q) id
            (λ sc h. drop_seq-Kept q sc h) (λ k sc o h. h) scopes kept)
  ]

  pub evict_oldest-Distinct : (scopes : Scopes M) → Distinct scopes → Distinct (evict_oldest scopes)
  unfolding evict_oldest
  evict_oldest-Distinct scopes d = elim (Option-cases (earliest (all_stamps scopes))) [
    | inl nothing ↦ rw (evict_oldest, nothing) d
    | inr ((at, id, q), found) ↦ rw (evict_oldest, found) (update-Distinct id (drop_seq q) scopes d)
  ]

  evict_oldest_shrinks :
      (scopes : Scopes M)
      → Distinct scopes
      → EachScope (λ k sc. Kept sc) scopes
      → 0 < terminal_count scopes
      → terminal_count (evict_oldest scopes) + 1 ≡ terminal_count scopes
  unfolding evict_oldest
  evict_oldest_shrinks scopes d kept some_left =
      elim (Option-cases (earliest (all_stamps scopes))) [
        | inl nothing ↦ absurd (
            earliest_found (all_stamps scopes)
              (omega (arith, some_left, terminal_count-all_stamps scopes kept)) nothing)
        | inr ((at, id, q), found) ↦
            rw (evict_oldest, found)
              (drop_held id q scopes (earliest-Holds scopes at id q found) d kept)
      ]

  -- The fuel suffices: at most 256 terminal records stay.
  pub evict_bounds :
      (f : ℕ) (scopes : Scopes M)
      → Distinct scopes
      → EachScope (λ k sc. Kept sc) scopes
      → terminal_count scopes ≤ f
      → terminal_count (evict f scopes) ≤ max_terminal
  unfolding evict
  evict_bounds zero scopes d kept h = omega (arith, h)
  evict_bounds (suc f) scopes d kept h =
      elim (Bool-cases (ltb max_terminal (terminal_count scopes))) [
        | inl more ↦
            let shrunk = evict_oldest_shrinks scopes d kept (ground arith) in
            rw more (
              evict_bounds f (evict_oldest scopes) (evict_oldest-Distinct scopes d)
                (evict_oldest-Kept scopes kept) (omega (arith, shrunk, h)))
        | inr enough ↦ rw enough (ground arith)
      ]
