-- ===== src/Sessions/Keyed.antt =====
-- apps/lab-runtime/src/sessions.rs: a predicate on every scope of the map, and the operations of
-- the map that keep it.
use lab_runtime.Base.{
  ◌≡◌, refl, Bool, true, false, some, List, [], ◌∷◌, u64_eq, Bool-cases, inl, inr, subst, arith,
}
use lab_runtime.Sessions.Types.{Text, text_is}
use lab_runtime.Sessions.Scopes.{text_lt, lookup, insert, map_values, update, retain}

pub text_is-eq : (s t : Text) → text_is s t ≡ true → s ≡ t
unfolding text_is
text_is-eq [] [] h = refl
text_is-eq [] (y ∷ ys) h = ground arith
text_is-eq (x ∷ xs) [] h = ground arith
text_is-eq (x ∷ xs) (y ∷ ys) h =
    let same : x ≡ y = ground arith in let rest : xs ≡ ys = text_is-eq xs ys (ground arith) in cc

pub text_is_self : (s : Text) → text_is s s ≡ true
unfolding text_is
text_is_self [] = refl
text_is_self (x ∷ xs) = ground (arith, text_is_self xs)

module _ {V : Type 0} where
  unfoldable pub EachScope : (Text → V → Type 0) → List (Text × V) → Type 0
  EachScope Q [] = Unit
  EachScope Q ((k, v) ∷ rest) = Q k v × EachScope Q rest

module _ {V : Type 0} (Q : Text → V → Type 0) where
  pub lookup-EachScope :
      (k : Text) (v : V) (scopes : List (Text × V))
      → EachScope Q scopes
      → lookup k scopes ≡ some v
      → Q k v
  unfolding EachScope lookup
  lookup-EachScope k v [] each h = ground arith
  lookup-EachScope k v ((k', v') ∷ rest) each h = elim (Bool-cases (text_is k' k)) [
    | inl same ↦
        let keys : k' ≡ k = text_is-eq k' k same in
        let values : v' ≡ v = ground arith in
        subst (λ w. Q k w) values (subst (λ j. Q j v') keys each.0)
    | inr other ↦ lookup-EachScope k v rest each.1 (ground arith)
  ]

  pub retain-EachScope :
      (p : V → Bool) (scopes : List (Text × V)) → EachScope Q scopes → EachScope Q (retain p scopes)
  unfolding EachScope retain
  retain-EachScope p [] each = each
  retain-EachScope p ((k, v) ∷ rest) each = elim (Bool-cases (p v)) [
    | inl kept ↦ rw kept (each.0, retain-EachScope p rest each.1)
    | inr dropped ↦ rw dropped (retain-EachScope p rest each.1)
  ]

  pub insert-EachScope :
      (k : Text) (v : V) (scopes : List (Text × V))
      → Q k v
      → EachScope Q scopes
      → EachScope Q (insert k v scopes)
  unfolding EachScope insert
  insert-EachScope k v [] new each = (new, tt)
  insert-EachScope k v ((k', v') ∷ rest) new each =
      let later = insert-EachScope k v rest new each.1 in
      elim (Bool-cases (text_is k' k)) [
        | inl same ↦ rw same (new, each.1)
        | inr other ↦ elim (Bool-cases (text_lt k k')) [
          | inl before ↦ rw other (rw before (new, each))
          | inr after ↦ rw other (rw after (each.0, later))
        ]
      ]

pub implied-EachScope :
    {V : Type 0} (Q R : Text → V → Type 0)
    → ((k : Text) (v : V) → Q k v → R k v)
    → (scopes : List (Text × V)) → EachScope Q scopes
    → EachScope R scopes
unfolding EachScope
implied-EachScope Q R implies [] each = tt
implied-EachScope Q R implies ((k, v) ∷ rest) each =
    (implies k v each.0, implied-EachScope Q R implies rest each.1)

pub both-EachScope :
    {V : Type 0} (Q R : Text → V → Type 0) (scopes : List (Text × V))
    → EachScope Q scopes
    → EachScope R scopes
    → EachScope (λ k v. Q k v × R k v) scopes
unfolding EachScope
both-EachScope Q R [] q r = tt
both-EachScope Q R ((k, v) ∷ rest) q r = ((q.0, r.0), both-EachScope Q R rest q.1 r.1)

module _ {V : Type 0} (Q R : Text → V → Type 0) (f : V → V) where
  pub map_values-EachScope :
      ((k : Text) (v : V) → Q k v → R k (f v))
      → (scopes : List (Text × V)) → EachScope Q scopes
      → EachScope R (map_values f scopes)
  unfolding EachScope map_values
  map_values-EachScope step [] each = tt
  map_values-EachScope step ((k, v) ∷ rest) each =
      (step k v each.0, map_values-EachScope step rest each.1)

  pub update-EachScope :
      (k : Text)
      → ((v : V) → Q k v → R k (f v))
      → ((j : Text) (v : V) → text_is j k ≡ false → Q j v → R j v)
      → (scopes : List (Text × V)) → EachScope Q scopes
      → EachScope R (update k f scopes)
  unfolding EachScope update
  update-EachScope k at_key else_where [] each = tt
  update-EachScope k at_key else_where ((k', v) ∷ rest) each =
      let later = update-EachScope k at_key else_where rest each.1 in
      elim (Bool-cases (text_is k' k)) [
        | inl same ↦
            let keys : k ≡ k' = ground (arith, text_is-eq k' k same) in
            rw same (
              subst (λ j. R j (f v)) keys
                  (at_key v (subst (λ j. Q j v) (ground (arith, text_is-eq k' k same)) each.0)),
              later,
            )
        | inr other ↦ rw other (else_where k' v other each.0, later)
      ]
