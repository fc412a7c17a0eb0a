-- ===== src/Vlog/Heap/Order.antt =====
-- The order of the heap: each iterator has a weight, and `less` compares weights.
use mathlib.Core.List.{Perm}
use mathlib.Core.List.Perm
use timeq.Base.{
  ℕ, zero, suc, ◌+◌, ◌^◌, ◌≤◌, ◌<◌, ◌≡◌, refl, ap, ◌∙◌, false, List, [], ◌∷◌, ◌++◌, none, some,
  length, get_elem?, set, length-set, arith, ok, ltb, ◌==◌, if◌then◌else◌,
}
use timeq.Base.Words.{rank}
use timeq.Vlog.Iter.{Iter, no_item}
use timeq.Vlog.Heap.{before, less, swap, parent}

abbrev pub weight : Iter → ℕ
weight li = (if li.exhausted then 2 ^ 64 else 0) + rank li.item.key

pub before-weight : (x y : Iter) → before x y ≡ ltb (weight x) (weight y)
unfolding before
before-weight x y = ground arith

-- An iterator for indices out of range, of which nothing is used.
abbrev pub nowhere : Iter
nowhere = record {
  first_key = 0;
  curr_off = 0;
  prev_off = 0;
  item = no_item;
  err = none;
  curr_len = 0;
  prev_len = 0;
  exhausted = false;
  continue_on_err = false;
}

abbrev pub entry : List Iter → ℕ → Iter
entry [] i = nowhere
entry (x ∷ is) zero = x
entry (x ∷ is) (suc i) = entry is i

unfoldable pub weight_at : List Iter → ℕ → ℕ
weight_at is i = weight (entry is i)

pub get_elem?-entry : (is : List Iter) (i : ℕ) → i < length is → get_elem? is i ≡ some (entry is i)
get_elem?-entry [] i h = absurd (omega arith)
get_elem?-entry (x ∷ is) zero h = refl
get_elem?-entry (x ∷ is) (suc i) h = get_elem?-entry is i (omega arith)

pub entry-set :
    (is : List Iter) (i c : ℕ) (v : Iter)
    → i < length is
    → entry (set is i v) c ≡ (if i == c then v else entry is c)
entry-set [] i c v h = absurd (omega arith)
entry-set (x ∷ is) zero zero v h = refl
entry-set (x ∷ is) zero (suc c) v h = ground arith
entry-set (x ∷ is) (suc i) zero v h = ground arith
entry-set (x ∷ is) (suc i) (suc c) v h = ground (arith, entry-set is i c v)

pub entry-append_left :
    (is js : List Iter) (i : ℕ) → i < length is → entry (is ++ js) i ≡ entry is i
entry-append_left [] js i h = absurd (omega arith)
entry-append_left (x ∷ is) js zero h = refl
entry-append_left (x ∷ is) js (suc i) h = entry-append_left is js i (omega arith)

pub weight_at-append :
    (is js : List Iter) (i : ℕ) → i < length is → weight_at (is ++ js) i ≡ weight_at is i
unfolding weight_at
weight_at-append is js i h = ap weight (entry-append_left is js i h)

-- The list after `swap`.
unfoldable pub swapped : List Iter → ℕ → ℕ → List Iter
swapped is i j = set (set is i (entry is j)) j (entry is i)

-- A write exchanges one entry of the multiset.
set-perm :
    (is : List Iter) (i : ℕ) (v : Iter) → i < length is → Perm (entry is i ∷ set is i v) (v ∷ is)
set-perm [] i v h = absurd (omega arith)
set-perm (x ∷ is) zero v h = Perm.swap v x is
set-perm (x ∷ is) (suc i) v h =
    Perm.trans (Perm.swap x (entry is i) (set is i v))
      (Perm.trans (Perm.cons x (set-perm is i v (omega arith))) (Perm.swap v x is))

module _ (is : List Iter) (i j : ℕ) (hi : i < length is) (hj : j < length is) where
  pub less-ok : less is i j ≡ ok (ltb (weight_at is i) (weight_at is j))
  unfolding less weight_at
  less-ok = rw (get_elem?-entry is i hi, get_elem?-entry is j hj, before-weight)

  pub swap-ok : swap is i j ≡ ok (swapped is i j)
  unfolding swap swapped
  swap-ok = rw (get_elem?-entry is i hi, get_elem?-entry is j hj)

  pub length-swapped : length (swapped is i j) ≡ length is
  unfolding swapped
  length-swapped = length-set (set is i (entry is j)) j (entry is i) ∙ length-set is i (entry is j)

  pub entry-swapped :
      (c : ℕ)
      → entry (swapped is i j) c
        ≡ (if j == c then entry is i else if i == c then entry is j else entry is c)
  unfolding swapped
  entry-swapped c = rw (
    entry-set (set is i (entry is j)) j c (entry is i)
        (omega (arith, hj, length-set is i (entry is j))),
    entry-set is i c (entry is j) hi,
  )

  pub weight_at-swapped :
      (c : ℕ)
      → weight_at (swapped is i j) c
        ≡ (if j == c then weight_at is i else if i == c then weight_at is j else weight_at is c)
  unfolding weight_at
  weight_at-swapped c = rw (entry-swapped c) (ground arith)

  pub swapped-perm : Perm (swapped is i j) is
  unfolding swapped
  swapped-perm =
      let once = set is i (entry is j) in
      let kept : entry once j ≡ entry is j = ground (arith, entry-set is i j (entry is j) hi) in
      let twice = set-perm once j (entry is i) (omega (arith, hj, length-set is i (entry is j))) in
      Perm.cons_inv (Perm.trans (rw kept at twice) (set-perm is i (entry is j) hi))

-- Every iterator but the root weighs at least as much as its parent.
abbrev pub IsHeap : List Iter → Type 0
IsHeap is = (c : ℕ) → 0 < c → c < length is → weight_at is (parent c) ≤ weight_at is c

heap_path :
    (fuel : ℕ) (is : List Iter) (c : ℕ)
    → IsHeap is
    → c < fuel
    → c < length is
    → weight_at is 0 ≤ weight_at is c
heap_path zero is c h f p = absurd (omega arith)
heap_path (suc fuel) is c h f p = ground (arith, h c, heap_path fuel is (parent c) h)

-- The root of a heap is least.
pub root_least :
    (is : List Iter) (c : ℕ) → IsHeap is → c < length is → weight_at is 0 ≤ weight_at is c
root_least is c h p = heap_path (suc c) is c h (omega arith) p
