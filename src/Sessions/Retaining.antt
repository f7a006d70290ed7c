-- ===== src/Sessions/Retaining.antt =====
-- apps/lab-runtime/src/sessions.rs: a pending record stays until its own completion.
use lab_runtime.Base.{
  ℕ, zero, suc, ◌≡◌, refl, sym, subst, true, false, none, some, is_some, List, [], ◌∷◌, ◌==◌,
  u64_eq, Bool-cases, Option-cases, inl, inr, arith, length, ltb,
}
use lab_runtime.Sessions.Types.{Text, text_is, Entry, Scope, terminal, max_terminal}
use lab_runtime.Sessions.Scopes.{text_lt, lookup, map_values, update, insert}
use lab_runtime.Sessions.Retention.{
  Scopes, is_terminal, has_seq, drop_seq, trim_scope, earliest, all_stamps, evict_oldest, evict,
  enforce_terminal_bounds, terminal_count,
}
use lab_runtime.Sessions.Store.{find}
use lab_runtime.Sessions.Keyed.{EachScope, lookup-EachScope, text_is-eq, text_is_self}
use lab_runtime.Sessions.Records.{HasDated}
use lab_runtime.Sessions.Distinct.{Fresh, Distinct, map_values-Distinct, text_differs}
use lab_runtime.Sessions.Lookups.{lookup-map_values, find-drop_first, find-trim}
use lab_runtime.Sessions.Eviction.{find_dated}
use lab_runtime.Sessions.Replay.{StillPending}
use lab_runtime.Sessions.Stamps.{Kept, Holds, Holds-present, earliest-Holds}
use lab_runtime.Sessions.Global.{evict_oldest-Kept, evict_oldest-Distinct}

module _ {M : Type 0} where
  lookup_elsewhere :
      (f : Scope M → Scope M) (j k : Text) (sc : Scope M) (scopes : Scopes M)
      → text_is k j ≡ false
      → lookup k scopes ≡ some sc
      → lookup k (update j f scopes) ≡ some sc
  unfolding lookup update
  lookup_elsewhere f j k sc [] apart h = ground arith
  lookup_elsewhere f j k sc ((i, c) ∷ rest) apart h = elim (Bool-cases (text_is i k)) [
    | inl here ↦
        let same : i ≡ k = text_is-eq i k here in
        let other : text_is i j ≡ false = rw same apart in ground (arith, other)
    | inr past ↦ ground (arith, lookup_elsewhere f j k sc rest apart (ground arith))
  ]

  lookup_found :
      (f : Scope M → Scope M) (j k : Text) (sc : Scope M) (scopes : Scopes M)
      → text_is k j ≡ true
      → lookup k scopes ≡ some sc
      → lookup k (update j f scopes) ≡ some (f sc)
  unfolding lookup update
  lookup_found f j k sc [] same h = ground arith
  lookup_found f j k sc ((i, c) ∷ rest) same h = elim (Bool-cases (text_is i k)) [
    | inl here ↦
        let keys : i ≡ k = text_is-eq i k here in
        let found : text_is i j ≡ true = rw keys same in ground (arith, found)
    | inr past ↦ ground (arith, lookup_found f j k sc rest same (ground arith))
  ]

  pub lookup_inserted :
      (j k : Text) (w sc : Scope M) (scopes : Scopes M)
      → text_is j k ≡ false
      → Fresh j scopes
      → lookup k scopes ≡ some sc
      → lookup k (insert j w scopes) ≡ some sc
  unfolding lookup insert Fresh EachScope
  lookup_inserted j k w sc [] apart fresh h = ground arith
  lookup_inserted j k w sc ((i, c) ∷ rest) apart fresh h =
      rw (text_differs i j fresh.0) (elim (Bool-cases (text_lt j i)) [
        | inl before ↦ rw before (ground arith)
        | inr after ↦ rw after (elim (Bool-cases (text_is i k)) [
          | inl here ↦ ground arith
          | inr past ↦ ground (arith, lookup_inserted j k w sc rest apart fresh.1 (ground arith))
        ])
      ])

  -- A change of one scope that keeps the record.
  pub update-StillPending :
      (f : Scope M → Scope M) (j k : Text) (q : ℕ) (e : Entry M) (scopes : Scopes M)
      → ((sc : Scope M)
          → text_is k j ≡ true
          → lookup k scopes ≡ some sc
          → find q sc.records ≡ some e
          → find q (f sc).records ≡ some e)
      → StillPending k q e scopes
      → StillPending k q e (update j f scopes)
  update-StillPending f j k q e scopes keeps r = elim (Bool-cases (text_is k j)) [
    | inl here ↦ record {
      scope = f r.scope;
      present = lookup_found f j k r.scope scopes here r.present;
      recorded = keeps r.scope here r.present r.recorded;
      pending = r.pending;
      undated = r.undated;
    }
    | inr past ↦ record {
      scope = r.scope;
      present = lookup_elsewhere f j k r.scope scopes past r.present;
      recorded = r.recorded;
      pending = r.pending;
      undated = r.undated;
    }
  ]

  -- A change of every scope that keeps the record.
  pub map_values-StillPending :
      (f : Scope M → Scope M) (k : Text) (q : ℕ) (e : Entry M) (scopes : Scopes M)
      → ((sc : Scope M) → find q sc.records ≡ some e → find q (f sc).records ≡ some e)
      → StillPending k q e scopes
      → StillPending k q e (map_values f scopes)
  map_values-StillPending f k q e scopes keeps r = record {
    scope = f r.scope;
    present = lookup-map_values f k r.scope scopes r.present;
    recorded = keeps r.scope r.recorded;
    pending = r.pending;
    undated = r.undated;
  }

  pub find_seq : (q : ℕ) (e : Entry M) (es : List (Entry M)) → find q es ≡ some e → e.seq ≡ q
  unfolding find
  find_seq q e [] found = ground arith
  find_seq q e (x ∷ es) found = elim (Bool-cases (x.seq == q)) [
    | inl here ↦ ground arith
    | inr past ↦ ground (arith, find_seq q e es (ground arith))
  ]

  Holds-lookup :
      (k : Text) (q : ℕ) (sc : Scope M) (scopes : Scopes M)
      → Distinct scopes
      → Holds k q scopes
      → lookup k scopes ≡ some sc
      → HasDated q sc.records
  unfolding Holds Distinct lookup Fresh
  Holds-lookup k q sc [] d h found = absurd h
  Holds-lookup k q sc ((i, c) ∷ rest) d (inl here) found =
      let same : text_is i k ≡ true = rw here.0 (text_is_self k) in
      let value : c ≡ sc = ground arith in rw⁻¹ value here.1
  Holds-lookup k q sc ((i, c) ∷ rest) d (inr past) found = elim (Bool-cases (text_is i k)) [
    | inl here ↦ absurd (Holds-present k q rest (rw⁻¹ (text_is-eq i k here) d.0) past)
    | inr other ↦ Holds-lookup k q sc rest d.1 past (ground arith)
  ]

  undated_differs :
      (n q : ℕ) (e : Entry M) (sc : Scope M)
      → HasDated n sc.records
      → Kept sc
      → find q sc.records ≡ some e
      → e.terminal_at ≡ none
      → has_seq n e ≡ false
  unfolding has_seq
  undated_differs n q e sc held kept found undated = elim (Bool-cases (e.seq == n)) [
    | inr differs ↦ differs
    | inl same ↦
        let number : e.seq ≡ q = find_seq q e sc.records found in
        let dated : is_some e.terminal_at ≡ true =
          find_dated 0 sc.high_water q e sc.records
            (subst (λ i. HasDated i sc.records) (ground (arith, same, number)) held) kept.ordered
            found in
        absurd (ground (arith, dated, undated))
  ]

  -- The global loop removes dated records only.
  evict_oldest-StillPending :
      (k : Text) (q : ℕ) (e : Entry M) (scopes : Scopes M)
      → Distinct scopes
      → EachScope (λ j sc. Kept sc) scopes
      → StillPending k q e scopes
      → StillPending k q e (evict_oldest scopes)
  unfolding evict_oldest drop_seq
  evict_oldest-StillPending k q e scopes d kept r =
      elim (Option-cases (earliest (all_stamps scopes))) [
        | inl nothing ↦ rw (evict_oldest, nothing) r
        | inr ((at, id, n), found) ↦
            rw (evict_oldest, found)
              (update-StillPending (drop_seq n) id k q e scopes
                (λ sc here present recorded.
                  let same : id ≡ k = sym (text_is-eq k id here) in
                  let held =
                    Holds-lookup k n sc scopes d
                      (subst (λ i. Holds i n scopes) same (earliest-Holds scopes at id n found))
                      present in
                  let sound = lookup-EachScope (λ j sc. Kept sc) k sc scopes kept present in
                  find-drop_first (has_seq n) q e sc.records recorded
                    (undated_differs n q e sc held sound recorded r.undated))
                r)
      ]

  evict-StillPending :
      (f : ℕ) (k : Text) (q : ℕ) (e : Entry M) (scopes : Scopes M)
      → Distinct scopes
      → EachScope (λ j sc. Kept sc) scopes
      → StillPending k q e scopes
      → StillPending k q e (evict f scopes)
  unfolding evict
  evict-StillPending zero k q e scopes d kept r = r
  evict-StillPending (suc f) k q e scopes d kept r =
      elim (Bool-cases (ltb max_terminal (terminal_count scopes))) [
        | inl more ↦ rw more (
            evict-StillPending f k q e (evict_oldest scopes) (evict_oldest-Distinct scopes d)
              (evict_oldest-Kept scopes kept) (evict_oldest-StillPending k q e scopes d kept r))
        | inr enough ↦ rw enough r
      ]

  pub bounds-StillPending :
      (k : Text) (q : ℕ) (e : Entry M) (scopes : Scopes M)
      → Distinct scopes
      → EachScope (λ j sc. Kept sc) (map_values trim_scope scopes)
      → StillPending k q e scopes
      → StillPending k q e (enforce_terminal_bounds scopes)
  unfolding enforce_terminal_bounds trim_scope is_terminal terminal
  bounds-StillPending k q e scopes d kept r =
      let trimmed = map_values trim_scope scopes in
      let live : is_terminal e ≡ false = rw r.pending refl in
      evict-StillPending (terminal_count trimmed) k q e trimmed
        (map_values-Distinct trim_scope scopes d) kept
        (map_values-StillPending trim_scope k q e scopes
          (λ sc found. find-trim (length sc.records) q e sc.records found live) r)
