-- ===== src/Sessions/Lookups.antt =====
-- apps/lab-runtime/src/sessions.rs: what `get` and `find` see after the operations of the map and
-- of the records.
use lab_runtime.Base.{
  ℕ, zero, suc, ◌≡◌, Bool, true, false, none, some, List, [], ◌∷◌, ◌++◌, ◌==◌, u64_eq, ltb,
  Bool-cases, inl, inr, arith, select, count,
}
use lab_runtime.Sessions.Types.{Text, text_is, Entry, max_terminal_scope}
use lab_runtime.Sessions.Scopes.{lookup, map_values, update, retain}
use lab_runtime.Sessions.Retention.{drop_first, trim, is_terminal}
use lab_runtime.Sessions.Store.{find}

module _ {V : Type 0} where
  pub lookup-map_values :
      (f : V → V) (k : Text) (v : V) (scopes : List (Text × V))
      → lookup k scopes ≡ some v
      → lookup k (map_values f scopes) ≡ some (f v)
  unfolding lookup map_values
  lookup-map_values f k v [] h = ground arith
  lookup-map_values f k v ((k', v') ∷ rest) h = elim (Bool-cases (text_is k' k)) [
    | inl same ↦ ground arith
    | inr other ↦ ground (arith, lookup-map_values f k v rest (ground arith))
  ]

  pub lookup-update :
      (f : V → V) (k : Text) (v : V) (scopes : List (Text × V))
      → lookup k scopes ≡ some v
      → lookup k (update k f scopes) ≡ some (f v)
  unfolding lookup update
  lookup-update f k v [] h = ground arith
  lookup-update f k v ((k', v') ∷ rest) h = elim (Bool-cases (text_is k' k)) [
    | inl same ↦ ground arith
    | inr other ↦ ground (arith, lookup-update f k v rest (ground arith))
  ]

  pub lookup-retain :
      (p : V → Bool) (k : Text) (v : V) (scopes : List (Text × V))
      → lookup k scopes ≡ some v
      → p v ≡ true
      → lookup k (retain p scopes) ≡ some v
  unfolding lookup retain
  lookup-retain p k v [] h kept = ground arith
  lookup-retain p k v ((k', v') ∷ rest) h kept = elim (Bool-cases (text_is k' k)) [
    | inl same ↦ ground arith
    | inr other ↦ ground (arith, lookup-retain p k v rest (ground arith) kept)
  ]

module _ {M : Type 0} where
  pub find-append :
      (q : ℕ) (e : Entry M) (es : List (Entry M))
      → find q es ≡ none
      → e.seq ≡ q
      → find q (es ++ e ∷ []) ≡ some e
  unfolding find
  find-append q e [] absent numbered = ground arith
  find-append q e (x ∷ es) absent numbered =
      ground (arith, find-append q e es (ground arith) numbered)

  pub find-select :
      (p : Entry M → Bool) (q : ℕ) (e : Entry M) (es : List (Entry M))
      → find q es ≡ some e
      → p e ≡ true
      → find q (select p es) ≡ some e
  unfolding find
  find-select p q e [] found kept = ground arith
  find-select p q e (x ∷ es) found kept = elim (Bool-cases (x.seq == q)) [
    | inl same ↦ ground arith
    | inr other ↦ ground (arith, find-select p q e es (ground arith) kept)
  ]

  pub find-drop_first :
      (p : Entry M → Bool) (q : ℕ) (e : Entry M) (es : List (Entry M))
      → find q es ≡ some e
      → p e ≡ false
      → find q (drop_first p es) ≡ some e
  unfolding find drop_first
  find-drop_first p q e [] found kept = ground arith
  find-drop_first p q e (x ∷ es) found kept = elim (Bool-cases (x.seq == q)) [
    | inl same ↦ ground arith
    | inr other ↦ ground (arith, find-drop_first p q e es (ground arith) kept)
  ]

  pub find-trim :
      (f q : ℕ) (e : Entry M) (es : List (Entry M))
      → find q es ≡ some e
      → is_terminal e ≡ false
      → find q (trim f es) ≡ some e
  unfolding trim
  find-trim zero q e es found live = found
  find-trim (suc f) q e es found live =
      let rest =
        find-trim f q e (drop_first is_terminal es) (find-drop_first is_terminal q e es found live)
          live in
      elim (Bool-cases (ltb max_terminal_scope (count is_terminal es))) [
        | inl more ↦ rw more rest
        | inr enough ↦ rw enough found
      ]

  pub count-found :
      (p : Entry M → Bool) (q : ℕ) (e : Entry M) (es : List (Entry M))
      → find q es ≡ some e
      → p e ≡ true
      → ltb 0 (count p es) ≡ true
  unfolding find
  count-found p q e [] found holds = ground arith
  count-found p q e (x ∷ es) found holds = elim (Bool-cases (x.seq == q)) [
    | inl same ↦ ground arith
    | inr other ↦ ground (arith, count-found p q e es (ground arith) holds)
  ]
