-- ===== src/Sessions/Distinct.antt =====
-- apps/lab-runtime/src/sessions.rs: a key occurs once in the map of scopes, and the sums over the
-- scopes after the operations of the map.
use lab_runtime.Base.{
  ℕ, suc, ◌+◌, ◌≤◌, ◌≡◌, ◌≢◌, refl, ap, sym, ◌∙◌, Bool, true, false, some, List, [], ◌∷◌, u64_eq,
  Bool-cases, inl, inr, arith, length,
}
use lab_runtime.Sessions.Types.{Text, text_is, Scope}
use lab_runtime.Sessions.Scopes.{text_lt, lookup, insert, map_values, update, retain}
use lab_runtime.Sessions.Retention.{Scopes, sum_scopes}
use lab_runtime.Sessions.Keyed.{
  EachScope, text_is-eq, text_is_self, retain-EachScope, implied-EachScope, insert-EachScope,
  map_values-EachScope, update-EachScope,
}

pub text_differs : (s t : Text) → s ≢ t → text_is s t ≡ false
text_differs s t h = elim (Bool-cases (text_is s t)) [
  | inl same ↦ absurd (h (text_is-eq s t same))
  | inr other ↦ other
]

elsewhere : (s t : Text) → text_is s t ≡ false → s ≢ t
elsewhere s t h same = let self : text_is s s ≡ true = text_is_self s in ground (arith, self)

module _ {V : Type 0} where
  unfoldable pub Fresh : Text → List (Text × V) → Type 0
  unfolding EachScope
  Fresh k scopes = EachScope (λ j v. j ≢ k) scopes

  unfoldable pub Distinct : List (Text × V) → Type 0
  unfolding Fresh
  Distinct [] = Unit
  Distinct ((k, v) ∷ rest) = Fresh k rest × Distinct rest

  pub map_values-Distinct :
      (f : V → V) (scopes : List (Text × V)) → Distinct scopes → Distinct (map_values f scopes)
  unfolding Distinct Fresh map_values
  map_values-Distinct f [] d = d
  map_values-Distinct f ((k, v) ∷ rest) d = (
    map_values-EachScope (λ j v. j ≢ k) (λ j v. j ≢ k) f (λ j v h. h) rest d.0,
    map_values-Distinct f rest d.1,
  )

  pub update-Distinct :
      (i : Text) (f : V → V) (scopes : List (Text × V))
      → Distinct scopes
      → Distinct (update i f scopes)
  unfolding Distinct Fresh update
  update-Distinct i f [] d = d
  update-Distinct i f ((k, v) ∷ rest) d =
      let fresh =
        update-EachScope (λ j v. j ≢ k) (λ j v. j ≢ k) f i (λ v h. h) (λ j v o h. h) rest d.0 in
      let later = update-Distinct i f rest d.1 in
      elim (Bool-cases (text_is k i)) [
        | inl here ↦ rw here (fresh, later)
        | inr past ↦ rw past (fresh, later)
      ]

  pub retain-Distinct :
      (p : V → Bool) (scopes : List (Text × V)) → Distinct scopes → Distinct (retain p scopes)
  unfolding Distinct Fresh retain
  retain-Distinct p [] d = d
  retain-Distinct p ((k, v) ∷ rest) d =
      let later = retain-Distinct p rest d.1 in
      elim (Bool-cases (p v)) [
        | inl kept ↦ rw kept (retain-EachScope (λ j v. j ≢ k) p rest d.0, later)
        | inr dropped ↦ rw dropped later
      ]

  pub insert-Distinct :
      (i : Text) (w : V) (scopes : List (Text × V))
      → Fresh i scopes
      → Distinct scopes
      → Distinct (insert i w scopes)
  unfolding Distinct Fresh insert EachScope
  insert-Distinct i w [] fresh d = (tt, tt)
  insert-Distinct i w ((k, v) ∷ rest) fresh d =
      let later = insert-Distinct i w rest fresh.1 d.1 in
      let apart : i ≢ k = λ h. fresh.0 (sym h) in
      rw (text_differs k i fresh.0) (elim (Bool-cases (text_lt i k)) [
        | inl before ↦ rw before (fresh, d)
        | inr after ↦ rw after (insert-EachScope (λ j v. j ≢ k) i w rest apart d.0, later)
      ])

  pub update-Fresh :
      (i : Text) (f : V → V) (scopes : List (Text × V))
      → Fresh i scopes
      → update i f scopes ≡ scopes
  unfolding Fresh update EachScope
  update-Fresh i f [] fresh = refl
  update-Fresh i f ((k, v) ∷ rest) fresh =
      rw (text_differs k i fresh.0) (ap (λ r. (k, v) ∷ r) (update-Fresh i f rest fresh.1))

  pub length-map_values :
      (f : V → V) (scopes : List (Text × V)) → length (map_values f scopes) ≡ length scopes
  unfolding map_values
  length-map_values f [] = refl
  length-map_values f ((k, v) ∷ rest) = omega (arith, length-map_values f rest)

  pub length-update :
      (i : Text) (f : V → V) (scopes : List (Text × V)) → length (update i f scopes) ≡ length scopes
  unfolding update
  length-update i f [] = refl
  length-update i f ((k, v) ∷ rest) = ground (arith, length-update i f rest)

  pub length-retain :
      (p : V → Bool) (scopes : List (Text × V)) → length (retain p scopes) ≤ length scopes
  unfolding retain
  length-retain p [] = omega arith
  length-retain p ((k, v) ∷ rest) = ground (arith, length-retain p rest)

  pub length-insert :
      (i : Text) (w : V) (scopes : List (Text × V))
      → length (insert i w scopes) ≤ suc (length scopes)
  unfolding insert
  length-insert i w [] = omega arith
  length-insert i w ((k, v) ∷ rest) = ground (arith, length-insert i w rest)

  -- `get` finds the only value of the key.
  pub lookup-Distinct :
      (i : Text) (w : V) (scopes : List (Text × V))
      → Distinct scopes
      → lookup i scopes ≡ some w
      → EachScope (λ j v. j ≡ i → v ≡ w) scopes
  unfolding Distinct Fresh lookup EachScope
  lookup-Distinct i w [] d h = tt
  lookup-Distinct i w ((k, v) ∷ rest) d h = elim (Bool-cases (text_is k i)) [
    | inl here ↦
        let same : k ≡ i = text_is-eq k i here in
        (
          λ e. ground arith,
          implied-EachScope (λ j v. j ≢ k) (λ j v. j ≡ i → v ≡ w)
              (λ j v apart e. absurd (apart (e ∙ sym same))) rest d.0,
        )
    | inr past ↦ (λ e. absurd (elsewhere k i past e), lookup-Distinct i w rest d.1 (ground arith))
  ]

module _ {M : Type 0} (f : Scope M → ℕ) where
  pub sum_scopes-map_values :
      (g : Scope M → Scope M)
      → ((sc : Scope M) → f (g sc) ≤ f sc)
      → (scopes : Scopes M) → sum_scopes f (map_values g scopes) ≤ sum_scopes f scopes
  unfolding sum_scopes map_values
  sum_scopes-map_values g le [] = omega arith
  sum_scopes-map_values g le ((k, sc) ∷ rest) =
      omega (arith, le sc, sum_scopes-map_values g le rest)

  pub sum_scopes-retain :
      (p : Scope M → Bool) (scopes : Scopes M)
      → sum_scopes f (retain p scopes) ≤ sum_scopes f scopes
  unfolding sum_scopes retain
  sum_scopes-retain p [] = omega arith
  sum_scopes-retain p ((k, sc) ∷ rest) = ground (arith, sum_scopes-retain p rest)

  pub sum_scopes-update_le :
      (i : Text) (g : Scope M → Scope M)
      → ((sc : Scope M) → f (g sc) ≤ f sc)
      → (scopes : Scopes M) → sum_scopes f (update i g scopes) ≤ sum_scopes f scopes
  unfolding sum_scopes update
  sum_scopes-update_le i g le [] = omega arith
  sum_scopes-update_le i g le ((k, sc) ∷ rest) =
      ground (arith, le sc, sum_scopes-update_le i g le rest)

  pub sum_scopes-map_values_same :
      (g : Scope M → Scope M)
      → ((sc : Scope M) → f (g sc) ≡ f sc)
      → (scopes : Scopes M) → sum_scopes f (map_values g scopes) ≡ sum_scopes f scopes
  unfolding sum_scopes map_values
  sum_scopes-map_values_same g same [] = refl
  sum_scopes-map_values_same g same ((k, sc) ∷ rest) =
      omega (arith, same sc, sum_scopes-map_values_same g same rest)

  pub sum_scopes-update_same :
      (i : Text) (g : Scope M → Scope M)
      → ((sc : Scope M) → f (g sc) ≡ f sc)
      → (scopes : Scopes M) → sum_scopes f (update i g scopes) ≡ sum_scopes f scopes
  unfolding sum_scopes update
  sum_scopes-update_same i g same [] = refl
  sum_scopes-update_same i g same ((k, sc) ∷ rest) =
      ground (arith, same sc, sum_scopes-update_same i g same rest)

  pub sum_scopes-insert :
      (i : Text) (w : Scope M) (scopes : Scopes M)
      → Fresh i scopes
      → f w ≡ 0
      → sum_scopes f (insert i w scopes) ≡ sum_scopes f scopes
  unfolding sum_scopes insert Fresh EachScope
  sum_scopes-insert i w [] fresh h = omega (arith, h)
  sum_scopes-insert i w ((k, sc) ∷ rest) fresh h =
      rw (text_differs k i fresh.0) (elim (Bool-cases (text_lt i k)) [
        | inl before ↦ rw before (omega (arith, h))
        | inr after ↦ rw after (omega (arith, sum_scopes-insert i w rest fresh.1 h))
      ])

  pub sum_scopes-update :
      (i : Text) (g : Scope M → Scope M) (sc : Scope M) (scopes : Scopes M)
      → Distinct scopes
      → lookup i scopes ≡ some sc
      → sum_scopes f (update i g scopes) + f sc ≡ sum_scopes f scopes + f (g sc)
  unfolding sum_scopes update lookup Distinct
  sum_scopes-update i g sc [] d h = ground arith
  sum_scopes-update i g sc ((k, c) ∷ rest) d h = elim (Bool-cases (text_is k i)) [
    | inl here ↦
        let found : c ≡ sc = ground arith in
        let same : k ≡ i = text_is-eq k i here in
        let later : update i g rest ≡ rest = rw (sym same) (update-Fresh k g rest d.0) in
        rw here (rw later (rw found (omega arith)))
    | inr past ↦
        let rest_sum = sum_scopes-update i g sc rest d.1 (ground arith) in ground (arith, rest_sum)
  ]
