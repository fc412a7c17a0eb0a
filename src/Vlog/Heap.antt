-- ===== src/Vlog/Heap.antt =====
-- vlog/heap.go: iterators as a binary heap in a slice, the iterator of the lowest item first and
-- exhausted ones last. An index out of range panics. Slices are far shorter than 2 ^ 62, so the
-- index `2*i + 1` does not overflow and its test `j1 < 0` is left out.
pub mod Order
pub mod Swaps
pub mod Sift
use timeq.Base.{
  ℕ, zero, suc, ◌+◌, ◌-◌, ◌*◌, ◌/◌, Bool, true, false, not, List, [], ◌∷◌, ◌++◌, length, get_elem?,
  set, Run, ok, out_of_fuel, ◌>>=◌, or_panic, ltb, leb, ◌==◌, if◌then◌else◌,
}
use timeq.Base.Words.{lt_i64}
use timeq.Vlog.Iter.{Iter}

-- The comparison of `less`, on two iterators.
pub before : Iter → Iter → Bool
before x y =
    if x.exhausted
    then (if y.exhausted then lt_i64 x.item.key y.item.key else false)
    else (if y.exhausted then true else lt_i64 x.item.key y.item.key)

unfoldable pub less : List Iter → ℕ → ℕ → Run Bool
unfolding before
less is i j = do x ← or_panic (get_elem? is i); y ← or_panic (get_elem? is j); ok (before x y)

unfoldable pub swap : List Iter → ℕ → ℕ → Run (List Iter)
swap is i j = do
  y ← or_panic (get_elem? is j)
  x ← or_panic (get_elem? is i)
  ok (set (set is i y) j x)

-- The parent of the root is the root, in Go's division too.
abbrev pub parent : ℕ → ℕ
parent j = (j - 1) / 2

up_loop : ℕ → List Iter → ℕ → Run (List Iter)
up_loop zero is j = out_of_fuel
up_loop (suc fuel) is j =
    let i = parent j in
    let climb = swap is i j >>= λ is'. up_loop fuel is' i in
    let compared = less is j i >>= λ lower. if lower then climb else ok is in
    if i == j then ok is else compared

unfoldable pub up : List Iter → ℕ → Run (List Iter)
unfolding up_loop less swap
up is j = up_loop (j + 1) is j

-- The child of `i` that goes up, when the left child `j1` exists.
lower_child : List Iter → ℕ → ℕ → Run ℕ
lower_child is j1 n =
    let j2 = j1 + 1 in
    if ltb j2 n then (less is j2 j1 >>= λ lower. ok (if lower then j2 else j1)) else ok j1

down_loop : ℕ → List Iter → ℕ → ℕ → Run (List Iter × ℕ)
down_loop zero is i n = out_of_fuel
down_loop (suc fuel) is i n =
    let j1 = 2 * i + 1 in
    let compared : Run (List Iter × ℕ) = do
      j ← lower_child is j1 n
      lower ← less is j i
      let sink = swap is i j >>= λ is'. down_loop fuel is' j n
      if lower then sink else ok (is, i)
    in if leb n j1 then ok (is, i) else compared

-- The slice, and whether the iterator moved.
unfoldable pub down : List Iter → ℕ → ℕ → Run (List Iter × Bool)
unfolding down_loop lower_child less swap
down is i0 n = down_loop (n + 1) is i0 n >>= λ (is', i). ok (is', ltb i0 i)

unfoldable pub fix : List Iter → ℕ → Run (List Iter)
unfolding down up
fix is i = down is i (length is) >>= λ (is', moved). if not moved then up is' i else ok is'

unfoldable pub push : List Iter → Iter → Run (List Iter)
unfolding up
push is li = up (is ++ (li ∷ [])) (length (is ++ (li ∷ [])) - 1)
