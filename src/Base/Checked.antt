-- ===== src/Base/Checked.antt =====
-- `u64::checked_add` and `Duration::checked_add`. A Duration is its count of nanoseconds: u64
-- seconds and fewer than 10^9 nanoseconds make at most 2^64 * 10^9 - 1 of them.
use Prim.Native.Nat.{ℕ, ◌+◌}
use mathlib.Core.Option.{Option, none, some}
use lab_runtime.Base.Tests.{leb, if◌then◌else◌}

abbrev pub u64_max : ℕ
u64_max = 18446744073709551615

abbrev pub duration_max : ℕ
duration_max = 18446744073709551615999999999

unfoldable pub checked_add : ℕ → ℕ → Option ℕ
checked_add a b = if leb (a + b) u64_max then some (a + b) else none

unfoldable pub duration_add : ℕ → ℕ → Option ℕ
duration_add a b = if leb (a + b) duration_max then some (a + b) else none
