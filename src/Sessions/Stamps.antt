-- ===== src/Sessions/Stamps.antt =====
-- apps/lab-runtime/src/sessions.rs: the record that the global loop of `enforce_terminal_bounds`
-- removes is a terminal one.
use lab_runtime.Base.{
  ℕ, ◌+◌, ◌≡◌, ◌≢◌, ◌⊎◌, refl, sym, subst, true, some, is_some, List, [], ◌∷◌, ◌++◌, u64_eq, ltb,
  Bool-cases, Option-cases, inl, inr, arith, Every,
}
use lab_runtime.Sessions.Types.{Text, text_is, Entry, Scope}
use lab_runtime.Sessions.Scopes.{update}
use lab_runtime.Sessions.Retention.{
  Scopes, stamps, all_stamps, earliest, earliest_from, drop_seq, terminal_of, terminal_count,
  sum_scopes,
}
use lab_runtime.Sessions.Keyed.{EachScope, text_is_self}
use lab_runtime.Sessions.Records.{Ordered, Dated, HasDated}
use lab_runtime.Sessions.Distinct.{Fresh, Distinct, text_differs, update-Fresh}
use lab_runtime.Sessions.Eviction.{drop_first_at}

module _ {A : Type 0} (Q : A → Type 0) where
  implied-Every : (R : A → Type 0) → ((a : A) → Q a → R a) → (xs : List A) → Every Q xs → Every R xs
  implied-Every R implies [] each = tt
  implied-Every R implies (x ∷ xs) each = (implies x each.0, implied-Every R implies xs each.1)

  joined-Every : (xs ys : List A) → Every Q xs → Every Q ys → Every Q (xs ++ ys)
  joined-Every [] ys each rest = rest
  joined-Every (x ∷ xs) ys each rest = (each.0, joined-Every xs ys each.1 rest)

earliest_from-Every :
    (Q : ℕ × Text × ℕ → Type 0) (best : ℕ × Text × ℕ) (xs : List (ℕ × Text × ℕ))
    → Q best
    → Every Q xs
    → Q (earliest_from best xs)
unfolding earliest_from
earliest_from-Every Q best [] b each = b
earliest_from-Every Q best (x ∷ xs) b each = elim (Bool-cases (ltb x.0 best.0)) [
  | inl earlier ↦ rw earlier (earliest_from-Every Q x xs each.0 each.1)
  | inr later ↦ rw later (earliest_from-Every Q best xs b each.1)
]

earliest-Every :
    (Q : ℕ × Text × ℕ → Type 0) (x : ℕ × Text × ℕ) (xs : List (ℕ × Text × ℕ))
    → earliest xs ≡ some x
    → Every Q xs
    → Q x
unfolding earliest
earliest-Every Q x [] h each = absurd (ground arith)
earliest-Every Q x (y ∷ ys) h each =
    let same : earliest_from y ys ≡ x = ground arith in
    subst Q same (earliest_from-Every Q y ys each.0 each.1)

module _ {M : Type 0} where
  -- The scope `id` has a dated record of the number `q`.
  unfoldable pub Holds : Text → ℕ → Scopes M → Type 0
  unfolding HasDated
  Holds id q [] = ⊥
  Holds id q ((k, sc) ∷ rest) = ((k ≡ id) × HasDated q sc.records) ⊎ Holds id q rest

  HasDated-first :
      (e : Entry M) (es : List (Entry M)) → is_some e.terminal_at ≡ true → HasDated e.seq (e ∷ es)
  unfolding HasDated
  HasDated-first e es dated = inl (refl, dated)

  HasDated-later : (q : ℕ) (e : Entry M) (es : List (Entry M)) → HasDated q es → HasDated q (e ∷ es)
  unfolding HasDated
  HasDated-later q e es past = inr past

  stamps-Every :
      (Q : ℕ × Text × ℕ → Type 0) (id : Text) (e : Entry M) (es : List (Entry M))
      → ((at : ℕ) → e.terminal_at ≡ some at → Q (at, id, e.seq))
      → Every Q (stamps id es)
      → Every Q (stamps id (e ∷ es))
  unfolding stamps
  stamps-Every Q id e es first rest = elim (Option-cases e.terminal_at) [
    | inl undated ↦ rw (stamps, undated) rest
    | inr (at, dated) ↦ rw (stamps, dated) (first at dated, rest)
  ]

  stamps-HasDated :
      (id : Text) (es : List (Entry M)) → Every (λ x. (x.1 ≡ id) × HasDated x.2 es) (stamps id es)
  unfolding stamps
  stamps-HasDated id [] = tt
  stamps-HasDated id (e ∷ es) =
      let Q : ℕ × Text × ℕ → Type 0 = λ x. (x.1 ≡ id) × HasDated x.2 (e ∷ es) in
      stamps-Every Q id e es (λ at dated. (refl, HasDated-first e es (rw dated refl)))
        (implied-Every (λ x. (x.1 ≡ id) × HasDated x.2 es) Q
          (λ x h. (h.0, HasDated-later x.2 e es h.1)) (stamps id es) (stamps-HasDated id es))

  stamps-Holds : (scopes : Scopes M) → Every (λ x. Holds x.1 x.2 scopes) (all_stamps scopes)
  unfolding all_stamps Holds
  stamps-Holds [] = tt
  stamps-Holds ((k, sc) ∷ rest) =
      joined-Every (λ x. Holds x.1 x.2 ((k, sc) ∷ rest)) (stamps k sc.records) (all_stamps rest)
        (implied-Every (λ x. (x.1 ≡ k) × HasDated x.2 sc.records)
          (λ x. Holds x.1 x.2 ((k, sc) ∷ rest)) (λ x h. inl (sym h.0, h.1)) (stamps k sc.records)
          (stamps-HasDated k sc.records))
        (implied-Every (λ x. Holds x.1 x.2 rest) (λ x. Holds x.1 x.2 ((k, sc) ∷ rest))
          (λ x h. inr h) (all_stamps rest) (stamps-Holds rest))

  pub earliest-Holds :
      (scopes : Scopes M) (at : ℕ) (id : Text) (q : ℕ)
      → earliest (all_stamps scopes) ≡ some (at, id, q)
      → Holds id q scopes
  earliest-Holds scopes at id q h =
      earliest-Every (λ x. Holds x.1 x.2 scopes) (at, id, q) (all_stamps scopes) h
        (stamps-Holds scopes)

  -- The records of every scope are ordered and dated.
  pub record Kept (sc : Scope M) : Type 0 where
    pub ordered : Ordered 0 sc.records sc.high_water
    pub dated : Every Dated sc.records

  pub Holds-present :
      (id : Text) (q : ℕ) (scopes : Scopes M) → Fresh id scopes → ¬ Holds id q scopes
  unfolding Holds Fresh EachScope
  Holds-present id q [] fresh h = h
  Holds-present id q ((k, sc) ∷ rest) fresh (inl here) = fresh.0 here.0
  Holds-present id q ((k, sc) ∷ rest) fresh (inr past) = Holds-present id q rest fresh.1 past

  pub drop_held :
      (id : Text) (q : ℕ) (scopes : Scopes M)
      → Holds id q scopes
      → Distinct scopes
      → EachScope (λ k sc. Kept sc) scopes
      → terminal_count (update id (drop_seq q) scopes) + 1 ≡ terminal_count scopes
  unfolding Holds Distinct EachScope terminal_count sum_scopes update drop_seq terminal_of
  drop_held id q [] h d kept = absurd h
  drop_held id q ((k, sc) ∷ rest) (inl here) d kept =
      let dropped = drop_first_at 0 sc.high_water q sc.records here.1 kept.0.ordered kept.0.dated in
      let later : update id (drop_seq q) rest ≡ rest =
        rw (sym here.0) (update-Fresh k (drop_seq q) rest d.0) in
      let same : text_is k id ≡ true = rw here.0 (text_is_self id) in
      rw same (rw later (omega (arith, dropped)))
  drop_held id q ((k, sc) ∷ rest) (inr past) d kept =
      let apart : k ≢ id = λ same. Holds-present id q rest (rw (sym same) d.0) past in
      rw (text_differs k id apart) (omega (arith, drop_held id q rest past d.1 kept.1))
