-- ===== src/Base/Rings.antt =====
-- Bounded rings over a VecDeque: a push at the bound first drops the oldest element. `recent n xs` is
-- the end of `xs`, of at most `n` elements.
use Prim.Native.Nat.{ℕ, zero, suc, ◌+◌, ◌-◌, ◌≤◌, ◌<◌}
use mathlib.Core.Path.{◌≡◌, refl, sym, ap, ◌∙◌}
use mathlib.Core.Logic.{inl, inr}
use mathlib.Core.Bool.{true, false}
use mathlib.Core.Option.{Option, none, some}
use mathlib.Core.List.{List, [], ◌∷◌, ◌++◌}
use native.Mathlib.Omega.{arith}
use lab_runtime.Base.Tests.{nat_beq, if◌then◌else◌, Bool-cases}
use lab_runtime.Base.Lists.{length, length-append}

module _ {ℓ} {A : Type ℓ} where
  -- `VecDeque::back`, `pop_front` and `pop_back`.
  unfoldable pub back : List A → Option A
  back [] = none
  back (x ∷ []) = some x
  back (x ∷ y ∷ ys) = back (y ∷ ys)

  unfoldable pub pop_front : List A → List A
  pop_front [] = []
  pop_front (x ∷ xs) = xs

  unfoldable pub pop_back : List A → List A
  pop_back [] = []
  pop_back (x ∷ []) = []
  pop_back (x ∷ y ∷ ys) = x ∷ pop_back (y ∷ ys)

  -- `if ring.len() == bound { ring.pop_front(); } ring.push_back(x);`
  unfoldable pub push_bounded : ℕ → A → List A → List A
  push_bounded bound x xs = (if nat_beq (length xs) bound then pop_front xs else xs) ++ x ∷ []

  unfoldable pub drop : ℕ → List A → List A
  drop zero xs = xs
  drop (suc n) [] = []
  drop (suc n) (x ∷ xs) = drop n xs

  unfoldable pub take : ℕ → List A → List A
  take zero xs = []
  take (suc n) [] = []
  take (suc n) (x ∷ xs) = x ∷ take n xs

  unfoldable pub recent : ℕ → List A → List A
  unfolding drop
  recent n xs = drop (length xs - n) xs

  pub length-drop : (n : ℕ) (xs : List A) → length (drop n xs) ≡ length xs - n
  unfolding drop
  length-drop zero xs = omega arith
  length-drop (suc n) [] = omega arith
  length-drop (suc n) (x ∷ xs) = omega (arith, length-drop n xs)

  pub drop-append : (n : ℕ) (xs ys : List A) → n ≤ length xs → drop n (xs ++ ys) ≡ drop n xs ++ ys
  unfolding drop
  drop-append zero xs ys h = refl
  drop-append (suc n) [] ys h = absurd (omega arith)
  drop-append (suc n) (x ∷ xs) ys h = drop-append n xs ys (omega arith)

  pub drop-nil : (n : ℕ) → Path (List A) (drop n []) []
  unfolding drop
  drop-nil zero = refl
  drop-nil (suc n) = refl

  pub drop_eq : (m n : ℕ) (xs : List A) → m ≡ n → drop m xs ≡ drop n xs
  drop_eq m n xs h = ap (λ k. drop k xs) h

  pub drop-drop : (m n : ℕ) (xs : List A) → drop m (drop n xs) ≡ drop (n + m) xs
  unfolding drop
  drop-drop m zero xs = drop_eq m (0 + m) xs (omega arith)
  drop-drop m (suc n) [] = drop-nil m ∙ sym (drop-nil (suc n + m))
  drop-drop m (suc n) (x ∷ xs) =
      drop-drop m n xs ∙ drop_eq (suc (n + m)) (suc n + m) (x ∷ xs) (omega arith)

  pop_front-drop : (n : ℕ) (xs : List A) → pop_front (drop n xs) ≡ drop (suc n) xs
  unfolding drop pop_front
  pop_front-drop zero [] = refl
  pop_front-drop zero (x ∷ xs) = refl
  pop_front-drop (suc n) [] = refl
  pop_front-drop (suc n) (x ∷ xs) = pop_front-drop n xs

  pub back-drop : (n : ℕ) (xs : List A) → n < length xs → back (drop n xs) ≡ back xs
  unfolding drop back
  back-drop zero xs h = refl
  back-drop (suc n) [] h = absurd (omega arith)
  back-drop (suc n) (x ∷ []) h = absurd (omega arith)
  back-drop (suc n) (x ∷ y ∷ ys) h = back-drop n (y ∷ ys) (omega arith)

  pop_back-drop :
      (n : ℕ) (xs : List A) → n < length xs → pop_back (drop n xs) ≡ drop n (pop_back xs)
  unfolding drop pop_back
  pop_back-drop zero xs h = refl
  pop_back-drop (suc n) [] h = absurd (omega arith)
  pop_back-drop (suc n) (x ∷ []) h = absurd (omega arith)
  pop_back-drop (suc n) (x ∷ y ∷ ys) h = pop_back-drop n (y ∷ ys) (omega arith)

  pub length-pop_back : (xs : List A) → length (pop_back xs) ≡ length xs - 1
  unfolding pop_back
  length-pop_back [] = refl
  length-pop_back (x ∷ []) = refl
  length-pop_back (x ∷ y ∷ ys) = omega (arith, length-pop_back (y ∷ ys))

  pub length-recent : (n : ℕ) (xs : List A) → length (recent n xs) ≤ n
  unfolding recent
  length-recent n xs = omega (arith, length-drop (length xs - n) xs)

  pub recent-nil : (n : ℕ) → Path (List A) (recent n []) []
  unfolding recent
  recent-nil n = drop-nil (0 - n)

  pub back-recent : (n : ℕ) (xs : List A) → 0 < n → back (recent n xs) ≡ back xs
  unfolding recent
  back-recent n [] h = ap back (recent-nil n)
  back-recent n (x ∷ xs) h = back-drop (length (x ∷ xs) - n) (x ∷ xs) (omega arith)

  -- A push on the end of a history is the end of the history with the element.
  pub push_bounded-recent :
      (n : ℕ) (x : A) (xs : List A)
      → 0 < n
      → push_bounded n x (recent n xs) ≡ recent n (xs ++ x ∷ [])
  unfolding push_bounded recent
  push_bounded-recent n x xs h = elim (Bool-cases (nat_beq (length (recent n xs)) n)) [
    | inl e ↦ rw e (
        ap (λ (ys : List A). ys ++ x ∷ []) (pop_front-drop (length xs - n) xs)
        ∙ sym (drop-append (suc (length xs - n)) xs (x ∷ []) (full e))
        ∙ ap (λ k. drop k (xs ++ x ∷ [])) (one_more e))
    | inr e ↦ rw e (
        sym (drop-append (length xs - n) xs (x ∷ []) (omega arith))
        ∙ ap (λ k. drop k (xs ++ x ∷ [])) (short e))
  ]
    where
      size : length (recent n xs) ≡ length xs - (length xs - n)
      size = length-drop (length xs - n) xs

      full : nat_beq (length (recent n xs)) n ≡ true → suc (length xs - n) ≤ length xs
      full e = ground (arith, size, e, h)

      one_more :
          nat_beq (length (recent n xs)) n ≡ true → suc (length xs - n) ≡ length (xs ++ x ∷ []) - n
      one_more e = ground (arith, size, e, h, length-append xs (x ∷ []))

      short : nat_beq (length (recent n xs)) n ≡ false → length xs - n ≡ length (xs ++ x ∷ []) - n
      short e = ground (arith, size, e, h, length-append xs (x ∷ []))

  -- So is a replacement of the last element.
  pub replace_back-recent :
      (n : ℕ) (x : A) (xs : List A)
      → 0 < n
      → 0 < length xs
      → pop_back (recent n xs) ++ x ∷ [] ≡ recent n (pop_back xs ++ x ∷ [])
  unfolding recent
  replace_back-recent n x xs h some_there =
      ap (λ (ys : List A). ys ++ x ∷ []) (pop_back-drop (length xs - n) xs (omega arith))
      ∙ sym (drop-append (length xs - n) (pop_back xs) (x ∷ []) (omega (arith, length-pop_back xs)))
      ∙ ap (λ k. drop k (pop_back xs ++ x ∷ []))
          (omega (arith, length-pop_back xs, length-append (pop_back xs) (x ∷ [])))
