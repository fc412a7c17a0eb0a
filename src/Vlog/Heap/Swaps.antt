-- ===== src/Vlog/Heap/Swaps.antt =====
-- Lists that come about by exchanges of two entries.
use mathlib.Core.List.{Perm}
use mathlib.Core.List.Perm
use timeq.Base.{ℕ, zero, suc, ◌<◌, ◌≤◌, ◌≡◌, refl, List, [], ◌∷◌, length, set, arith, All}
use timeq.Vlog.Iter.{Iter}
use timeq.Vlog.Heap.Order.{entry, swapped, swapped-perm, weight, weight_at, IsHeap, root_least}

pub data Swaps : List Iter → List Iter → Type 0 where
  done : (is : List Iter) → Swaps is is
  step :
      {is r : List Iter} (i j : ℕ)
      → i < length is
      → j < length is
      → Swaps (swapped is i j) r
      → Swaps is r

pub Swaps-perm : {is r : List Iter} → Swaps is r → Perm r is
Swaps-perm (done is) = Perm.refl is
Swaps-perm (step {is = is} i j hi hj s) = Perm.trans (Swaps-perm s) (swapped-perm is i j hi hj)

module _ (P : Iter → Type 0) where
  All-entry : (is : List Iter) (i : ℕ) → i < length is → All P is → P (entry is i)
  All-entry [] i h a = absurd (omega arith)
  All-entry (x ∷ is) zero h a = a.0
  All-entry (x ∷ is) (suc i) h a = All-entry is i (omega arith) a.1

  All-set : (is : List Iter) (i : ℕ) (v : Iter) → P v → All P is → All P (set is i v)
  All-set [] i v p a = tt
  All-set (x ∷ is) zero v p a = (p, a.1)
  All-set (x ∷ is) (suc i) v p a = (a.0, All-set is i v p a.1)

  -- What holds of all entries holds of them after the exchanges.
  pub Swaps-All : {is r : List Iter} → Swaps is r → All P is → All P r
  unfolding swapped
  Swaps-All (done is) a = a
  Swaps-All (step {is = is} i j hi hj s) a = Swaps-All s (
      All-set (set is i (entry is j)) j (entry is i) (All-entry is i hi a)
        (All-set is i (entry is j) (All-entry is j hj a) a))

-- The root of a heap weighs no more than any entry.
All-of_entry :
    (P : Iter → Type 0) (is : List Iter) → ((c : ℕ) → c < length is → P (entry is c)) → All P is
All-of_entry P [] h = tt
All-of_entry P (x ∷ is) h = (h 0 (omega arith), All-of_entry P is (λ c q. h (suc c) (omega arith)))

pub root-All : (is : List Iter) → IsHeap is → All (λ li. weight_at is 0 ≤ weight li) is
unfolding weight_at
root-All is h = All-of_entry (λ li. weight_at is 0 ≤ weight li) is (λ c p. root_least is c h p)

-- The other entries do not depend on the root.
pub weight_at-root :
    (x y : Iter) (is : List Iter) (c : ℕ) → 0 < c → weight_at (x ∷ is) c ≡ weight_at (y ∷ is) c
unfolding weight_at
weight_at-root x y is zero h = absurd (omega arith)
weight_at-root x y is (suc c) h = refl
