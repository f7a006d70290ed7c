-- ===== src/Sessions/Scopes.antt =====
-- apps/lab-runtime/src/sessions.rs: the BTreeMap of scopes, a list in the order of its keys. A key
-- occurs once, so `get_mut` is the update of every entry with that key.
use lab_runtime.Base.{
  Bool, true, false, Option, none, some, List, [], ◌∷◌, ◌==◌, u64_eq, ltb, if◌then◌else◌,
}
use lab_runtime.Sessions.Types.{Text, text_is}

unfoldable pub text_lt : Text → Text → Bool
text_lt xs [] = false
text_lt [] (y ∷ ys) = true
text_lt (x ∷ xs) (y ∷ ys) = let rest = text_lt xs ys in if x == y then rest else ltb x y

module _ {V : Type 0} where
  unfoldable pub lookup : Text → List (Text × V) → Option V
  lookup k [] = none
  lookup k ((k', v) ∷ rest) = let found = lookup k rest in if text_is k' k then some v else found

  unfoldable pub insert : Text → V → List (Text × V) → List (Text × V)
  unfolding text_lt
  insert k v [] = (k, v) ∷ []
  insert k v ((k', v') ∷ rest) =
      let later = insert k v rest in
      if text_is k' k
      then (k, v) ∷ rest
      else if text_lt k k'
      then (k, v) ∷ (k', v') ∷ rest
      else (k', v') ∷ later

  unfoldable pub map_values : (V → V) → List (Text × V) → List (Text × V)
  map_values f [] = []
  map_values f ((k, v) ∷ rest) = (k, f v) ∷ map_values f rest

  unfoldable pub update : Text → (V → V) → List (Text × V) → List (Text × V)
  update k f [] = []
  update k f ((k', v) ∷ rest) =
      let later = update k f rest in if text_is k' k then (k', f v) ∷ later else (k', v) ∷ later

  unfoldable pub retain : (V → Bool) → List (Text × V) → List (Text × V)
  retain p [] = []
  retain p ((k, v) ∷ rest) = let later = retain p rest in if p v then (k, v) ∷ later else later
