-- ===== src/Vlog/Growth.antt =====
-- nextSize of vlog/vlog.go: how far the log's file grows.
use timeq.Base.{ℕ, zero, suc, ◌+◌, ◌*◌, ◌/◌, ◌%◌, ◌^◌, ◌≤◌, ◌<◌, ◌≡◌, arith, ge→ltb}
use timeq.Base.Words.{rank}
use native.Mathlib.Nat.{div-add-mod, mod-lt, mul-mod_left}
use timeq.Vlog.{page_shift, next_size}

-- Whole blocks of 2 ^ shift pages.
blocks_lem :
    (pages b : ℕ) → 0 < b → (pages < (pages / b + 1) * b) × ((pages / b + 1) * b ≤ pages + b)
blocks_lem pages b h = grind (arith, div-add-mod pages b)

page_shift_bound : (size : ℕ) → (3 ≤ page_shift size) × (page_shift size ≤ 7)
unfolding page_shift
page_shift_bound size = ground arith

block_bound : (s : ℕ) → 3 ≤ s → s ≤ 7 → (0 < 2 ^ s) × (2 ^ s ≤ 128)
block_bound (suc (suc (suc zero))) lo hi = omega arith
block_bound (suc (suc (suc (suc zero)))) lo hi = omega arith
block_bound (suc (suc (suc (suc (suc zero))))) lo hi = omega arith
block_bound (suc (suc (suc (suc (suc (suc zero)))))) lo hi = omega arith
block_bound (suc (suc (suc (suc (suc (suc (suc zero))))))) lo hi = omega arith
block_bound s lo hi = absurd (omega arith)

mul-le-mul : (a b p : ℕ) → a ≤ b → a * p ≤ b * p
mul-le-mul a b p h = grind arith

-- The pages that cover `blocks` pages' worth of `size` bytes.
pages_lem :
    (p size n : ℕ)
    → 0 < p
    → size / p < n
    → n ≤ size / p + 128
    → (size < n * p) × (n * p ≤ size + 128 * p)
pages_lem p size n h lo hi = omega (
  arith,
  div-add-mod size p,
  mod-lt size h,
  mul-le-mul (size / p + 1) n p (omega arith),
  mul-le-mul n (size / p + 128) p hi,
)

-- Past its size the log gets room for at least one byte and at most 128 pages, in whole pages, for
-- a positive page size and sizes that stay below 2^63.
pub next_size_bounds :
    (p size : ℕ)
    → 0 < p
    → size + 128 * p < 2 ^ 63
    → (size < next_size p size) × (next_size p size ≤ size + 128 * p) × (next_size p size % p ≡ 0)
unfolding next_size
next_size_bounds p size h fits =
    let s = page_shift size in
    let (pos, small) = block_bound s (page_shift_bound size).0 (page_shift_bound size).1 in
    let blocks = blocks_lem (size / p) (2 ^ s) pos in
    let n = (size / p / 2 ^ s + 1) * 2 ^ s in
    let pages = pages_lem p size n h blocks.0 (omega (arith, blocks.1, small)) in
    let whole : n * p % 2 ^ 64 ≡ n * p = omega (arith, pages.1, fits) in
    rw (ge→ltb (rank size) (rank 0) (omega (arith, fits)), whole)
      (pages.0, pages.1, mul-mod_left n p)
