-- ===== src/Common/Words.antt =====
-- Go's signed machine integers: a value is an integer, and a conversion wraps it round.
use opensqt_market_maker.Common.Tests.{ltb, if◌then◌else◌}
use opensqt_market_maker.Common.Int.{ℤ, pos, negsuc}
use Prim.Native.Nat.{ℕ, ◌+◌, ◌-◌, ◌%◌, ◌^◌, ◌≤◌}
use mathlib.Core.Path.{◌≡◌}
use native.Mathlib.Omega.{arith}

abbrev pub residue : ℕ → ℤ → ℕ
residue m (pos a) = a % m
residue m (negsuc a) = m - 1 - a % m

-- The value whose bit pattern is `r`, out of `2 * half` patterns.
abbrev pub signed : ℕ → ℕ → ℤ
signed half r = if ltb r half then pos r else negsuc (half + half - 1 - r)

unfoldable pub to_i32 : ℤ → ℤ
to_i32 z = signed (2 ^ 31) (residue (2 ^ 32) z)

unfoldable pub to_i64 : ℤ → ℤ
to_i64 z = signed (2 ^ 63) (residue (2 ^ 64) z)

abbrev pub max_i64 : ℕ
max_i64 = 9223372036854775807

pub to_i64-pos : (a : ℕ) → a ≤ max_i64 → to_i64 (pos a) ≡ pos a
unfolding to_i64
to_i64-pos a h = ground arith
