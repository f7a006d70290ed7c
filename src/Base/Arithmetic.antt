-- ===== src/Base/Arithmetic.antt =====
-- f64 arithmetic by IEEE 754: the exact result, a ratio of multiples of 2^-1074, is rounded once to
-- the nearest double, a tie to the even one. The sign of a zero is not kept, so a quotient by zero
-- has the sign of its dividend; the modelled code divides by positive values only.
use Prim.Native.Nat.{ℕ, zero, suc, ◌+◌, ◌-◌, ◌*◌, ◌/◌, ◌%◌, ◌^◌}
use mathlib.Core.Path.{◌≡◌}
use mathlib.Core.Bool.{Bool, true, false, ◌&&◌, ◌||◌, not}
use native.Mathlib.Omega.{arith}
use lab_runtime.Base.Tests.{leb, ltb, nat_beq, if◌then◌else◌}
use lab_runtime.Base.Float.{ℤ, pos, negsuc, F64, finite, infinite, nan, is_finite, f64_le, le_ℤ}

-- The units in 1.0.
abbrev pub one_units : ℕ
one_units = 2 ^ 1074

-- How often `q` is halved until 53 bits hold it. Beyond the fuel the value overflows.
unfoldable pub excess : ℕ → ℕ → ℕ
excess zero q = 0
excess (suc fuel) q = elim (ltb q (2 ^ 53)) [ true ↦ 0 | false ↦ suc (excess fuel (q / 2)) ]

-- The quotient by `u` rounded to nearest, a tie to even.
unfoldable pub nearest : ℕ → ℕ → ℕ
nearest n u =
    let q = n / u in
    let r = n % u in if ltb u (2 * r) || nat_beq u (2 * r) && nat_beq (q % 2) 1 then q + 1 else q

-- `true` is the negative sign.
unfoldable pub signed : Bool → ℕ → F64
signed negative zero = finite (pos 0)
signed false (suc n) = if ltb (suc n) (2 ^ 2098) then finite (pos (suc n)) else infinite true
signed true (suc n) = if ltb (suc n) (2 ^ 2098) then finite (negsuc n) else infinite false

unfoldable pub round_ratio : Bool → ℕ → ℕ → F64
unfolding excess nearest signed
round_ratio negative n den =
    let e = excess 2200 (n / den) in signed negative (nearest n (den * 2 ^ e) * 2 ^ e)

unfoldable pub is_negative : ℤ → Bool
is_negative (pos n) = false
is_negative (negsuc n) = true

unfoldable pub magnitude : ℤ → ℕ
magnitude (pos n) = n
magnitude (negsuc n) = suc n

unfoldable pub neg_ℤ : ℤ → ℤ
neg_ℤ (pos zero) = pos zero
neg_ℤ (pos (suc n)) = negsuc n
neg_ℤ (negsuc n) = pos (suc n)

unfoldable pub f64_neg : F64 → F64
unfolding neg_ℤ
f64_neg (finite n) = finite (neg_ℤ n)
f64_neg (infinite s) = infinite (not s)
f64_neg nan = nan

unfoldable pub sum_units : ℤ → ℤ → F64
unfolding round_ratio excess nearest signed
sum_units (pos a) (pos b) = round_ratio false (a + b) 1
sum_units (pos a) (negsuc b) =
    if leb (suc b) a then round_ratio false (a - suc b) 1 else round_ratio true (suc b - a) 1
sum_units (negsuc a) (pos b) =
    if leb (suc a) b then round_ratio false (b - suc a) 1 else round_ratio true (suc a - b) 1
sum_units (negsuc a) (negsuc b) = round_ratio true (suc a + suc b) 1

unfoldable pub f64_add : F64 → F64 → F64
unfolding sum_units
f64_add (finite a) (finite b) = sum_units a b
f64_add (finite a) (infinite s) = infinite s
f64_add (finite a) nan = nan
f64_add (infinite r) (finite b) = infinite r
f64_add (infinite true) (infinite true) = infinite true
f64_add (infinite false) (infinite false) = infinite false
f64_add (infinite _) (infinite _) = nan
f64_add (infinite r) nan = nan
f64_add nan b = nan

unfoldable pub f64_sub : F64 → F64 → F64
unfolding f64_add f64_neg
f64_sub a b = f64_add a (f64_neg b)

unfoldable pub differ : Bool → Bool → Bool
differ true b = not b
differ false b = b

unfoldable pub scaled_infinity : ℤ → Bool → F64
scaled_infinity (pos zero) s = nan
scaled_infinity (pos (suc n)) s = infinite s
scaled_infinity (negsuc n) s = infinite (not s)

unfoldable pub f64_mul : F64 → F64 → F64
unfolding round_ratio differ is_negative magnitude scaled_infinity
f64_mul (finite a) (finite b) =
    round_ratio (differ (is_negative a) (is_negative b)) (magnitude a * magnitude b) one_units
f64_mul (finite a) (infinite s) = scaled_infinity a s
f64_mul (finite a) nan = nan
f64_mul (infinite r) (finite b) = scaled_infinity b r
f64_mul (infinite r) (infinite s) = infinite (not (differ r s))
f64_mul (infinite r) nan = nan
f64_mul nan b = nan

unfoldable pub quotient : ℤ → ℤ → F64
unfolding round_ratio differ is_negative magnitude scaled_infinity
quotient a (pos zero) = scaled_infinity a true
quotient a (pos (suc b)) = round_ratio (is_negative a) (magnitude a * one_units) (suc b)
quotient a (negsuc b) = round_ratio (not (is_negative a)) (magnitude a * one_units) (suc b)

unfoldable pub f64_div : F64 → F64 → F64
unfolding quotient is_negative differ
f64_div (finite a) (finite b) = quotient a b
f64_div (finite a) (infinite s) = finite (pos 0)
f64_div (finite a) nan = nan
f64_div (infinite r) (finite b) = infinite (not (differ r (not (is_negative b))))
f64_div (infinite r) (infinite s) = nan
f64_div (infinite r) nan = nan
f64_div nan b = nan

-- `n as f64`.
unfoldable pub f64_of_nat : ℕ → F64
unfolding round_ratio
f64_of_nat n = round_ratio false (n * one_units) 1

-- `Duration::as_secs_f64` of a count of nanoseconds.
unfoldable pub as_secs : ℕ → F64
unfolding f64_of_nat f64_add f64_div
as_secs t =
    f64_add (f64_of_nat (t / 1000000000))
      (f64_div (f64_of_nat (t % 1000000000)) (f64_of_nat 1000000000))

abbrev pub f64_zero : F64
f64_zero = finite (pos 0)

-- `a < b`, false where one side is not a number.
unfoldable pub f64_lt : F64 → F64 → Bool
unfolding f64_le
f64_lt a b = f64_le a b && not (f64_le b a)

unfoldable pub f64_abs : F64 → F64
unfolding magnitude
f64_abs (finite n) = finite (pos (magnitude n))
f64_abs (infinite s) = infinite true
f64_abs nan = nan

unfoldable pub f64_signum : F64 → F64
unfolding is_negative
f64_signum (finite n) =
    if is_negative n then f64_neg (finite (pos one_units)) else finite (pos one_units)
f64_signum (infinite true) = finite (pos one_units)
f64_signum (infinite false) = f64_neg (finite (pos one_units))
f64_signum nan = nan

-- `f64::min`: the other side where one is not a number.
unfoldable pub f64_min : F64 → F64 → F64
unfolding f64_le
f64_min nan b = b
f64_min (finite a) nan = finite a
f64_min (infinite r) nan = infinite r
f64_min (finite a) b = if f64_le (finite a) b then finite a else b
f64_min (infinite r) b = if f64_le (infinite r) b then infinite r else b

-- `f64::clamp` at bounds that are numbers in order.
unfoldable pub f64_clamp : F64 → F64 → F64 → F64
unfolding f64_lt
f64_clamp x lo hi = if f64_lt x lo then lo else if f64_lt hi x then hi else x

-- Of two numbers, one is at most the other.
le_ℤ_total : (a b : ℤ) → le_ℤ a b ≡ false → le_ℤ b a ≡ true
unfolding le_ℤ
le_ℤ_total a b h = ground arith

pub f64_le_total :
    (a b : F64) → is_finite a ≡ true → is_finite b ≡ true → f64_le a b ≡ false → f64_le b a ≡ true
unfolding f64_le is_finite
f64_le_total (finite a) (finite b) u v h = le_ℤ_total a b h
f64_le_total (finite a) (infinite s) u v h = absurd (ground arith)
f64_le_total (finite a) nan u v h = absurd (ground arith)
f64_le_total (infinite s) b u v h = absurd (ground arith)
f64_le_total nan b u v h = absurd (ground arith)

pub f64_le_self : (a : F64) → is_finite a ≡ true → f64_le a a ≡ true
unfolding f64_le le_ℤ is_finite
f64_le_self a u = ground arith

-- A finite value clamped to finite bounds in order lies between them, and is a finite number.
pub f64_clamp-in_range :
    (x lo hi : F64)
    → is_finite x ≡ true
    → is_finite lo ≡ true
    → is_finite hi ≡ true
    → f64_le lo hi ≡ true
    → (f64_le lo (f64_clamp x lo hi) ≡ true)
      × (f64_le (f64_clamp x lo hi) hi ≡ true)
      × (is_finite (f64_clamp x lo hi) ≡ true)
unfolding f64_clamp f64_lt
f64_clamp-in_range x lo hi u v w h = ground (
  arith,
  f64_le_total x lo u v,
  f64_le_total hi x w u,
  f64_le_total lo x v u,
  f64_le_total x hi u w,
  f64_le_self lo v,
  f64_le_self hi w,
)
