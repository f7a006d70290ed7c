-- ===== src/Base/Float.antt =====
-- f64 values. Every finite double is an integer multiple of 2^-1074, and `finite n` is n * 2^-1074,
-- so orders and equations between doubles are exact. The two zeros are one value here: Rust's
-- `==` and `<=` do not tell them apart either. `infinite true` is the positive infinity.
use Prim.Native.Nat.{ℕ}
use mathlib.Core.Path.{◌≡◌}
use mathlib.Core.Bool.{Bool, true, false, ◌&&◌, not}
use native.Mathlib.Omega.{arith}
use lab_runtime.Base.Tests.{leb, nat_beq}

-- `negsuc n` is -(n + 1).
pub data ℤ : Type 0 where
  pos : ℕ → ℤ
  negsuc : ℕ → ℤ

pub data F64 : Type 0 where
  finite : ℤ → F64
  infinite : Bool → F64
  nan : F64

unfoldable pub is_finite : F64 → Bool
is_finite (finite n) = true
is_finite (infinite s) = false
is_finite nan = false

unfoldable pub le_ℤ : ℤ → ℤ → Bool
le_ℤ (pos a) (pos b) = leb a b
le_ℤ (pos a) (negsuc b) = false
le_ℤ (negsuc a) (pos b) = true
le_ℤ (negsuc a) (negsuc b) = leb b a

unfoldable pub eq_ℤ : ℤ → ℤ → Bool
eq_ℤ (pos a) (pos b) = nat_beq a b
eq_ℤ (pos a) (negsuc b) = false
eq_ℤ (negsuc a) (pos b) = false
eq_ℤ (negsuc a) (negsuc b) = nat_beq a b

-- `a <= b`, false where one side is not a number.
unfoldable pub f64_le : F64 → F64 → Bool
unfolding le_ℤ
f64_le (finite a) (finite b) = le_ℤ a b
f64_le (finite a) (infinite s) = s
f64_le (finite a) nan = false
f64_le (infinite true) (finite b) = false
f64_le (infinite false) (finite b) = true
f64_le (infinite true) (infinite s) = s
f64_le (infinite false) (infinite s) = true
f64_le (infinite s) nan = false
f64_le nan b = false

-- `a == b`, false where one side is not a number.
unfoldable pub f64_eq : F64 → F64 → Bool
unfolding eq_ℤ
f64_eq (finite a) (finite b) = eq_ℤ a b
f64_eq (finite a) (infinite s) = false
f64_eq (finite a) nan = false
f64_eq (infinite r) (finite b) = false
f64_eq (infinite true) (infinite s) = s
f64_eq (infinite false) (infinite s) = not s
f64_eq (infinite r) nan = false
f64_eq nan b = false

-- `(lo..=hi).contains(&x)`.
unfoldable pub in_range : F64 → F64 → F64 → Bool
in_range lo hi x = f64_le lo x && f64_le x hi

-- `==` holds between equal values only.
pub f64_eq-eq : (a b : F64) → f64_eq a b ≡ true → a ≡ b
unfolding f64_eq
f64_eq-eq a b h = ground arith

-- and of a finite value with itself.
pub f64_eq_self : (a : F64) → is_finite a ≡ true → f64_eq a a ≡ true
unfolding f64_eq is_finite
f64_eq_self a h = ground arith
