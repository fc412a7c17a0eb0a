-- ===== src/Base/Words.antt =====
-- 64-bit integers as bit patterns: a number below 2 ^ 64 stands for itself as a uint64, and for
-- itself or for itself less 2 ^ 64 as an int64.
use Prim.Native.Nat.{ℕ, ◌+◌, ◌-◌, ◌%◌, ◌^◌, ◌<◌}
use mathlib.Core.Path.{◌≡◌}
use mathlib.Core.Bool.{Bool}
use native.Mathlib.Omega.{arith}
use timeq.Base.Tests.{ltb, leb}

abbrev pub u64 : ℕ → ℕ
u64 n = n % 2 ^ 64

abbrev pub u32 : ℕ → ℕ
u32 n = n % 2 ^ 32

-- a + b and a - b with wrap-around, for either sign.
abbrev pub add64 : ℕ → ℕ → ℕ
add64 a b = (a + b) % 2 ^ 64

abbrev pub sub64 : ℕ → ℕ → ℕ
sub64 a b = (a + (2 ^ 64 - b % 2 ^ 64)) % 2 ^ 64

-- The order of the integers that the patterns stand for is the order of the ranks.
abbrev pub rank : ℕ → ℕ
rank w = (w + 2 ^ 63) % 2 ^ 64

abbrev pub lt_i64 : ℕ → ℕ → Bool
lt_i64 a b = ltb (rank a) (rank b)

abbrev pub le_i64 : ℕ → ℕ → Bool
le_i64 a b = leb (rank a) (rank b)

pub rank_bound : (w : ℕ) → rank w < 2 ^ 64
rank_bound w = omega arith

pub rank_injective : (a b : ℕ) → a < 2 ^ 64 → b < 2 ^ 64 → rank a ≡ rank b → a ≡ b
rank_injective a b ha hb e = omega arith

-- Below 2 ^ 63 the signed order is the order of the numbers.
pub rank-lt : (w : ℕ) → w < 2 ^ 63 → rank w ≡ w + 2 ^ 63
rank-lt w h = omega arith
