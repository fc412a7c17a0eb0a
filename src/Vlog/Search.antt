-- ===== src/Vlog/Search.antt =====
-- findNextItem of vlog/vlog.go: the search for the end of a damaged entry.
use timeq.Base.{
  ℕ, zero, suc, ◌+◌, ◌-◌, ◌^◌, ◌≤◌, ◌<◌, ◌≡◌, refl, ◌∙◌, List, [], ◌∷◌, some, length, get_elem?,
  arith, ok, ltb, leb, gt_of_leb, ltb→lt, ltb→ge, ◌==◌, Bool-cases, inl, inr,
}
use timeq.Base.Words.{add64, sub64}
use timeq.Vlog.{Log, find_loop, find_next_item}

get_elem?-within : (xs : List ℕ) (i : ℕ) → i < length xs → (b : ℕ) × (get_elem? xs i ≡ some b)
get_elem?-within [] i h = absurd (omega arith)
get_elem?-within (x ∷ xs) zero h = (x, refl)
get_elem?-within (x ∷ xs) (suc i) h = get_elem?-within xs i (omega arith)

module _ (l : Log) (mapped : l.size ≤ length l.mmap) where
  find_loop-bounds :
      (rounds idx : ℕ)
      → idx + rounds < l.size
      → (r : ℕ) × (find_loop l rounds idx ≡ ok r) × (idx ≤ r) × (r ≤ l.size)
  unfolding find_loop
  find_loop-bounds zero idx h = (l.size, refl, omega arith, omega arith)
  find_loop-bounds (suc rounds) idx h =
      let (r, run, low, high) = find_loop-bounds rounds (idx + 1) (omega arith) in
      let (b, here) = get_elem?-within l.mmap idx (omega (arith, mapped)) in
      let (c, next) = get_elem?-within l.mmap (idx + 1) (omega (arith, mapped)) in
      elim (Bool-cases (b == 0xff)) [
        | inr other ↦ (r, rw (here, other, run), omega (arith, low), high)
        | inl mark ↦ elim (Bool-cases (c == 0xff)) [
          | inr other ↦ (r, rw (here, mark, next, other, run), omega (arith, low), high)
          | inl both ↦ elim (Bool-cases (leb l.size (idx + 2))) [
            | inl ended ↦ (l.size, rw (here, mark, next, both, ended), omega arith, omega arith)
            | inr more ↦ (
              idx + 2,
              rw (here, mark, next, both, more),
              omega arith,
              omega (arith, gt_of_leb _ _ more),
            )
          ]
        ]
      ]

  find_loop-none : (rounds idx : ℕ) → rounds ≡ 0 → find_loop l rounds idx ≡ ok l.size
  unfolding find_loop
  find_loop-none rounds idx e = rw e

  -- In a log whose size is within the map and below 2^63, findNextItem from an offset within the
  -- size does not panic, moves forward, and stays within the size.
  pub find_next_item-bounds :
      (off : ℕ)
      → off < l.size
      → l.size < 2 ^ 63
      → (r : ℕ) × (find_next_item l off ≡ ok r) × (off < r) × (r ≤ l.size)
  unfolding find_next_item
  find_next_item-bounds off h small = elim (Bool-cases (ltb (off + 1) l.size)) [
    | inl inside ↦
        let (r, run, low, high) =
          find_loop-bounds (l.size - 1 - (off + 1)) (off + 1) (omega (arith, ltb→lt _ _ inside)) in
        (r, rounds_lem ∙ run, omega (arith, low), high)
    | inr last ↦ (
      l.size,
      rounds_lem
          ∙ find_loop-none (l.size - 1 - (off + 1)) (off + 1) (omega (arith, ltb→ge _ _ last)),
      h,
      omega arith,
    )
  ]
    where
      rounds_lem :
          find_loop l (sub64 l.size 1 - add64 off 1) (add64 off 1)
          ≡ find_loop l (l.size - 1 - (off + 1)) (off + 1)
      rounds_lem =
          let from : add64 off 1 ≡ off + 1 = omega (arith, h, small) in
          let rounds : sub64 l.size 1 - (off + 1) ≡ l.size - 1 - (off + 1) =
            omega (arith, h, small) in
          rw (from, rounds)
