-- ===== src/Base/Fallible.antt =====
-- Rust's Result, the `?` chain over it, and the same chain for methods on `&mut self`: such a
-- method keeps what it has changed when it returns an error.
use mathlib.Core.Path.{◌≡◌, refl}
use mathlib.Core.Logic.{◌⊎◌, inl, inr}
use mathlib.Core.Bool.{Bool, true, false}
use native.Mathlib.Omega.{arith}
use mathlib.Core.Option.{Option, none, some}

pub data Result (E A : Type 0) : Type 0 where
  ok : A → Result E A
  err : E → Result E A

module _ {E : Type 0} where
  abbrev pub guard : Bool → E → Result E (Unit {0})
  guard true e = ok tt
  guard false e = err e

  abbrev pub ok_or : {A : Type 0} → Option A → E → Result E A
  ok_or none e = err e
  ok_or (some a) e = ok a

  abbrev pub and_then : {A B : Type 0} → Result E A → (A → Result E B) → Result E B
  and_then (ok a) f = f a
  and_then (err e) f = err e

pub Result-cases :
    {E A : Type 0} (r : Result E A) → ((a : A) × (r ≡ ok a)) ⊎ ((e : E) × (r ≡ err e))
Result-cases (ok a) = inl (a, refl)
Result-cases (err e) = inr (e, refl)

-- A chain that succeeds has passed each of its steps.
pub passed :
    {E A B : Type 0} (r : Result E A) (f : A → Result E B) (b : B)
    → and_then r f ≡ ok b
    → (a : A) × (r ≡ ok a) × (f a ≡ ok b)
passed (ok a) f b h = (a, refl, h)
passed (err e) f b h = ground arith

pub after_pass :
    {E A B P : Type 0} (r : Result E A) (f : A → Result E B) (b : B)
    → and_then r f ≡ ok b
    → ((a : A) → r ≡ ok a → f a ≡ ok b → P)
    → P
after_pass (ok a) f b h k = k a refl h
after_pass (err e) f b h k = absurd (ground arith)

pub guard_passed : {E : Type 0} (t : Bool) (e : E) (u : Unit {0}) → guard t e ≡ ok u → t ≡ true
guard_passed true e u h = refl
guard_passed false e u h = ground arith

-- A method of `S` that may fail.
abbrev pub Act : Type 0 → Type 0 → Type 0 → Type 0
Act S E A = S → Result E A × S

module _ {S E : Type 0} where
  abbrev pub run_on : {A B : Type 0} → Result E A × S → (A → Act S E B) → Result E B × S
  run_on (ok a, s) f = f a s
  run_on (err e, s) f = (err e, s)

  infixl 5 ◌>>=◌ ◌>>◌
  abbrev pub ◌>>=◌ : {A B : Type 0} → Act S E A → (A → Act S E B) → Act S E B
  ◌>>=◌ m f s = run_on (m s) f

  abbrev pub ◌>>◌ : {B : Type 0} → Act S E (Unit {0}) → Act S E B → Act S E B
  ◌>>◌ m k s = run_on (m s) (λ _. k)

  abbrev pub return : {A : Type 0} → A → Act S E A
  return a s = (ok a, s)

  -- A check that reads the state and changes nothing.
  abbrev pub check : {A : Type 0} → (S → Result E A) → Act S E A
  check f s = (f s, s)

  abbrev pub modify : (S → S) → Act S E (Unit {0})
  modify f s = (ok tt, f s)

  abbrev pub fail : {A : Type 0} → E → Act S E A
  fail e s = (err e, s)

-- To prove `P` of a method that succeeds: its first step has succeeded. So has a first check, which
-- leaves the state as it is.
module _ {S E A B P : Type 0} where
  pub after_step :
      (r : Result E A × S) (f : A → Act S E B) (b : B) (s' : S)
      → run_on r f ≡ (ok b, s')
      → ((a : A) (s : S) → r ≡ (ok a, s) → f a s ≡ (ok b, s') → P)
      → P
  after_step (ok a, s) f b s' h k = k a s refl h
  after_step (err e, s) f b s' h k = absurd (ground arith)

  pub after_check :
      (c : Result E A) (s : S) (f : A → Act S E B) (b : B) (s' : S)
      → run_on (c, s) f ≡ (ok b, s')
      → ((a : A) → c ≡ ok a → f a s ≡ (ok b, s') → P)
      → P
  after_check (ok a) s f b s' h k = k a refl h
  after_check (err e) s f b s' h k = absurd (ground arith)

-- What a method keeps true of its state, whatever it returns, its chain keeps.
pub run_on_keeps {κ} :
    {S E A B : Type 0} (P : S → Type κ) (m : Result E A × S) (f : A → Act S E B)
    → P m.1
    → ((a : A) (s : S) → P s → P (f a s).1)
    → P (run_on m f).1
run_on_keeps P (ok a, s) f p k = k a s p
run_on_keeps P (err e, s) f p k = p

pub check_keeps {κ} :
    {S E A B : Type 0} (P : S → Type κ) (c : Result E A) (s : S) (f : A → Act S E B)
    → P s
    → ((a : A) → P (f a s).1)
    → P (run_on (c, s) f).1
check_keeps P (ok a) s f p k = k a
check_keeps P (err e) s f p k = p

-- From what the first step leaves to what the chain leaves.
pub run_on_then {κ} :
    {S E A B : Type 0} (P Q : S → Type κ) (m : Result E A × S) (f : A → Act S E B)
    → P m.1
    → ((s : S) → P s → Q s)
    → ((a : A) (s : S) → P s → Q (f a s).1)
    → Q (run_on m f).1
run_on_then P Q (ok a, s) f p weaker k = k a s p
run_on_then P Q (err e, s) f p weaker k = weaker s p

pub check_known {κ} :
    {S E A B : Type 0} (P : S → Type κ) (c : Result E A) (s : S) (f : A → Act S E B)
    → P s
    → ((a : A) → c ≡ ok a → P (f a s).1)
    → P (run_on (c, s) f).1
check_known P (ok a) s f p k = k a refl
check_known P (err e) s f p k = p
