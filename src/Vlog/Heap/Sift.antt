-- ===== src/Vlog/Heap/Sift.antt =====
-- `up` and `down` of vlog/heap.go restore the order of a heap with one iterator out of place.
use mathlib.Core.List.{Perm}
use timeq.Base.{
  ℕ, zero, suc, ◌+◌, ◌-◌, ◌*◌, ◌≤◌, ◌<◌, ◌≡◌, ◌≢◌, ◌⊎◌, inl, inr, refl, sym, ap, ◌∙◌, List, [], ◌∷◌,
  ◌++◌, length, arith, ok, ◌>>=◌, ltb, leb, ◌==◌, Bool-cases, ltb→lt, ltb→ge, leb→le, gt_of_leb,
  ==→eq, length-append,
}
use timeq.Vlog.Iter.{Iter}
use timeq.Vlog.Heap.{parent, up_loop, up, lower_child, down_loop, down, fix, push}
use timeq.Vlog.Heap.Order.{
  weight_at, weight_at-append, swapped, less-ok, swap-ok, length-swapped, weight_at-swapped, IsHeap,
}
use timeq.Vlog.Heap.Swaps.{Swaps, Swaps-perm}

-- `is` is a heap, but for `i`, which may weigh more than its children.
record SinkingAt (is : List Iter) (i : ℕ) : Type 0 where
  ordered :
      (c : ℕ) → 0 < c → c < length is → parent c ≢ i → weight_at is (parent c) ≤ weight_at is c
  over :
      (c : ℕ)
      → 0 < c
      → c < length is
      → parent c ≡ i
      → 0 < i
      → weight_at is (parent i) ≤ weight_at is c

-- `is` is a heap, but for `j`, which may weigh less than its parent.
record RisingAt (is : List Iter) (j : ℕ) : Type 0 where
  ordered : (c : ℕ) → 0 < c → c < length is → c ≢ j → weight_at is (parent c) ≤ weight_at is c
  over :
      (c : ℕ)
      → 0 < c
      → c < length is
      → parent c ≡ j
      → 0 < j
      → weight_at is (parent j) ≤ weight_at is c

-- A heap that comes from `is` by exchanges.
abbrev pub Restored : List Iter → List Iter → Type 0
Restored is r = IsHeap r × Swaps is r

-- The child that `lower_child` picks.
record IsLowerChild (is : List Iter) (i j : ℕ) : Type 0 where
  inside : j < length is
  child : (j ≡ 2 * i + 1) ⊎ (j ≡ 2 * i + 2)
  least : (c : ℕ) → 0 < c → c < length is → parent c ≡ i → weight_at is j ≤ weight_at is c

lower_child_lem :
    (is : List Iter) (i : ℕ)
    → 2 * i + 1 < length is
    → (j : ℕ) × (lower_child is (2 * i + 1) (length is) ≡ ok j) × IsLowerChild is i j
unfolding lower_child
lower_child_lem is i h = elim (Bool-cases (ltb (2 * i + 1 + 1) (length is))) [
  | inl two ↦
      let below = less-ok is (2 * i + 1 + 1) (2 * i + 1) (ltb→lt _ _ two) h in
      elim (Bool-cases (ltb (weight_at is (2 * i + 1 + 1)) (weight_at is (2 * i + 1)))) [
        | inl right ↦ (
          2 * i + 1 + 1,
          rw (two, below, ◌>>=◌, right),
          record { inside = ltb→lt _ _ two; child = omega arith; least = λ c p q r. ground arith },
        )
        | inr left ↦ (
          2 * i + 1,
          rw (two, below, ◌>>=◌, left),
          record { inside = h; child = omega arith; least = λ c p q r. ground arith },
        )
      ]
  | inr one ↦ (
    2 * i + 1,
    rw one,
    record { inside = h; child = omega arith; least = λ c p q r. ground arith },
  )
]

swapped-SinkingAt :
    (is : List Iter) (i j : ℕ)
    → SinkingAt is i
    → IsLowerChild is i j
    → weight_at is j < weight_at is i
    → SinkingAt (swapped is i j) j
swapped-SinkingAt is i j s m lower =
    let hi : i < length is = omega (arith, m.inside, m.child) in
    let after = weight_at-swapped is i j hi m.inside in
    let size = length-swapped is i j hi m.inside in
    record {
      ordered = λ c p q r. ground (
        arith,
        after c,
        after (parent c),
        size,
        s.ordered c,
        s.over j,
        s.over c,
        m.least c,
        m.child,
      );
      over = λ c p q r t. ground (arith, after c, after (parent j), size, s.ordered c, m.child);
    }

SinkingAt-IsHeap :
    (is : List Iter) (i : ℕ)
    → SinkingAt is i
    → ((c : ℕ) → 0 < c → c < length is → parent c ≡ i → weight_at is i ≤ weight_at is c)
    → IsHeap is
SinkingAt-IsHeap is i s h = λ c p q. ground (arith, s.ordered c, h c)

-- How the loop of `down` ends: at `k`, with the slice `r`.
abbrev Sunk : List Iter → ℕ → List Iter → ℕ → Type 0
Sunk is i r k = (i ≤ k) × (i ≡ k → r ≡ is) × (IsHeap r) × Swaps is r

down_loop_lem :
    (fuel : ℕ) (is : List Iter) (i : ℕ)
    → length is - i < fuel
    → SinkingAt is i
    → (r : List Iter) × (k : ℕ) × (down_loop fuel is i (length is) ≡ ok (r, k)) × (Sunk is i r k)
unfolding down_loop
down_loop_lem zero is i f s = absurd (omega arith)
down_loop_lem (suc fuel) is i f s = elim (Bool-cases (leb (length is) (2 * i + 1))) [
  | inl leaf ↦
      let heap = SinkingAt-IsHeap is i s (λ c p q r. absurd (omega (arith, leb→le _ _ leaf))) in
      (is, i, rw leaf, (omega arith, λ e. refl, heap, Swaps.done is))
  | inr inner ↦
      let (j, picked, m) = lower_child_lem is i (gt_of_leb _ _ inner) in
      let hi : i < length is = omega (arith, m.inside, m.child) in
      let compared = less-ok is j i m.inside hi in
      elim (Bool-cases (ltb (weight_at is j) (weight_at is i))) [
        | inl lower ↦
            let is' = swapped is i j in
            let size = length-swapped is i j hi m.inside in
            let below = ltb→lt _ _ lower in
            let (r, k, run, sunk) =
              down_loop_lem fuel is' j (omega (arith, f, size, m.child))
                (swapped-SinkingAt is i j s m below) in
            (
              r,
              k,
              rw (inner, picked, ◌>>=◌, compared, ◌>>=◌, lower, swap-ok is i j hi m.inside, ◌>>=◌)
                  (ap (λ n. down_loop fuel is' j n) (sym size) ∙ run),
              (
                omega (arith, sunk.0, m.child),
                λ e. absurd (omega (arith, e, sunk.0, m.child)),
                sunk.2,
                Swaps.step i j hi m.inside sunk.3,
              ),
            )
        | inr settled ↦
            let heap =
              SinkingAt-IsHeap is i s
                (λ c p q r. omega (arith, m.least c p q r, ltb→ge _ _ settled)) in
            (
              is,
              i,
              rw (inner, picked, ◌>>=◌, compared, ◌>>=◌, settled),
              (omega arith, λ e. refl, heap, Swaps.done is),
            )
      ]
]

swapped-RisingAt :
    (is : List Iter) (j : ℕ)
    → RisingAt is j
    → 0 < j
    → j < length is
    → weight_at is j < weight_at is (parent j)
    → RisingAt (swapped is (parent j) j) (parent j)
swapped-RisingAt is j s pos hj lower =
    let hi : parent j < length is = omega arith in
    let after = weight_at-swapped is (parent j) j hi hj in
    let size = length-swapped is (parent j) j hi hj in
    record {
      ordered = λ c p q r. ground (arith, after c, after (parent c), size, s.ordered c, s.over c);
      over = λ c p q r t. ground (
        arith,
        after c,
        after (parent (parent j)),
        size,
        s.ordered c,
        s.ordered (parent j),
        s.over c,
      );
    }

up_loop_lem :
    (fuel : ℕ) (is : List Iter) (j : ℕ)
    → j < fuel
    → j < length is
    → RisingAt is j
    → (r : List Iter) × (up_loop fuel is j ≡ ok r) × (IsHeap r) × Swaps is r
unfolding up_loop
up_loop_lem zero is j f hj s = absurd (omega arith)
up_loop_lem (suc fuel) is j f hj s = elim (Bool-cases (parent j == j)) [
  | inl root ↦ (
    is,
    rw root,
    settled (λ p. absurd (omega (arith, p, ==→eq (parent j) j root))),
    Swaps.done is,
  )
  | inr inner ↦
      let pos : 0 < j = ground arith in
      let hi : parent j < length is = omega (arith, pos) in
      let compared = less-ok is j (parent j) hj hi in
      elim (Bool-cases (ltb (weight_at is j) (weight_at is (parent j)))) [
        | inl lower ↦
            let is' = swapped is (parent j) j in
            let size = length-swapped is (parent j) j hi hj in
            let rising = swapped-RisingAt is j s pos hj (ltb→lt _ _ lower) in
            let (r, run, heap, same) =
              up_loop_lem fuel is' (parent j) (omega (arith, pos, f)) (omega (arith, size, hi))
                rising in
            (
              r,
              rw (inner, compared, ◌>>=◌, lower, swap-ok is (parent j) j hi hj, ◌>>=◌) run,
              heap,
              Swaps.step (parent j) j hi hj same,
            )
        | inr higher ↦ (
          is,
          rw (inner, compared, ◌>>=◌, higher),
          settled (λ _. ltb→ge _ _ higher),
          Swaps.done is,
        )
      ]
]
  where
    settled : (0 < j → weight_at is (parent j) ≤ weight_at is j) → IsHeap is
    settled h = λ c p q. ground (arith, s.ordered c, h)

-- `Fix(0)` by exchanges.
pub fix_root-Swaps :
    (is : List Iter)
    → ((c : ℕ) → 0 < c → c < length is → parent c ≢ 0 → weight_at is (parent c) ≤ weight_at is c)
    → (r : List Iter) × (fix is 0 ≡ ok r) × (IsHeap r) × Swaps is r
unfolding fix down up up_loop
fix_root-Swaps is h =
    let sinking : SinkingAt is 0 = record {
      ordered = h;
      over = λ c p q r t. absurd (omega (arith, t));
    } in
    let (r, k, run, sunk) = down_loop_lem (length is + 1) is 0 (omega arith) sinking in
    elim (Bool-cases (ltb 0 k)) [
      | inl moved ↦ (r, rw (run, ◌>>=◌, moved), sunk.2, sunk.3)
      | inr still ↦ (r, rw (run, ◌>>=◌, still), sunk.2, sunk.3)
    ]

-- Push by exchanges in the longer list.
pub push-Swaps :
    (is : List Iter) (li : Iter)
    → IsHeap is
    → (r : List Iter) × (push is li ≡ ok r) × (IsHeap r) × Swaps (is ++ (li ∷ [])) r
unfolding push up
push-Swaps is li h =
    let grown = is ++ (li ∷ []) in
    let size : length grown ≡ length is + 1 = length-append is (li ∷ []) in
    up_loop_lem (length grown - 1 + 1) grown (length grown - 1) (omega arith) (omega (arith, size))
      (record {
        ordered = λ c p q r. ground (
          arith,
          size,
          h c,
          weight_at-append is (li ∷ []) c,
          weight_at-append is (li ∷ []) (parent c),
        );
        over = λ c p q r t. absurd (omega (arith, size, q, r));
      })

-- Fix(0) on a list of iterators that is a heap but for its root does not panic and gives a heap of
-- the same iterators.
pub fix_root :
    (is : List Iter)
    → ((c : ℕ) → 0 < c → c < length is → parent c ≢ 0 → weight_at is (parent c) ≤ weight_at is c)
    → (r : List Iter) × (fix is 0 ≡ ok r) × (IsHeap r) × Perm r is
fix_root is h = let (r, run, heap, s) = fix_root-Swaps is h in (r, run, heap, Swaps-perm s)

-- Push on a heap of iterators does not panic and gives a heap of the old iterators and the new
-- one.
pub push_lem :
    (is : List Iter) (li : Iter)
    → IsHeap is
    → (r : List Iter) × (push is li ≡ ok r) × (IsHeap r) × Perm r (is ++ (li ∷ []))
push_lem is li h = let (r, run, heap, s) = push-Swaps is li h in (r, run, heap, Swaps-perm s)
