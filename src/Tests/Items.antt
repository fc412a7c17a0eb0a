-- ===== src/Tests/Items.antt =====
-- Items and heaps of iterators on small inputs.
use timeq.Base.{
  ℕ, zero, suc, ◌*◌, ◌<◌, ◌≤◌, ◌≡◌, ◌≢◌, ◌+◌, ◌%◌, List, [], ◌∷◌, ◌++◌, length, arith, ok, none,
  false,
}
use mathlib.Core.List.{Perm}
use timeq.Item.{Item}
use timeq.Item.Keys.{key_from_string, key_string, key_from_string-key_string}
use timeq.Base.{some}
use timeq.Vlog.{next_size}
use timeq.Options.{fixed_split}
use timeq.Base.{◌^◌, ◌-◌, refl}
use timeq.Vlog.Growth.{next_size_bounds}
use timeq.Vlog.Iter.{Iter}
use timeq.Vlog.Heap.{push, fix, parent}
use timeq.Vlog.Heap.Order.{IsHeap, weight_at}
use timeq.Vlog.Heap.Sift.{push_lem, fix_root}

abbrev two_items : List Item
two_items = record { key = 5; blob = 1 ∷ 2 ∷ [] } ∷ record { key = 9; blob = [] } ∷ []

next_size_bounds_example :
    (5000 < next_size 4096 5000)
    × (next_size 4096 5000 ≤ 5000 + 128 * 4096)
    × (next_size 4096 5000 % 4096 ≡ 0)
next_size_bounds_example = next_size_bounds 4096 5000 (omega arith) (omega arith)

-- An iterator whose current item has this key.
abbrev standing_at : ℕ → Iter
standing_at key = record {
  first_key = key;
  curr_off = 0;
  prev_off = 0;
  item = record { key = key; blob = [] };
  err = none;
  curr_len = 1;
  prev_len = 2;
  exhausted = false;
  continue_on_err = false;
}

abbrev heap_2_7 : List Iter
heap_2_7 = standing_at 2 ∷ standing_at 7 ∷ []

heap_2_7-IsHeap : IsHeap heap_2_7
unfolding weight_at
heap_2_7-IsHeap zero p q = omega arith
heap_2_7-IsHeap (suc zero) p q = omega arith
heap_2_7-IsHeap (suc (suc c)) p q = absurd (omega arith)

push_lem_example :
    (r : List Iter) × (push heap_2_7 (standing_at 1) ≡ ok r)
    × (IsHeap r)
    × Perm r (heap_2_7 ++ (standing_at 1 ∷ []))
push_lem_example = push_lem heap_2_7 (standing_at 1) heap_2_7-IsHeap

-- The root has moved past the others.
abbrev root_moved : List Iter
root_moved = standing_at 8 ∷ standing_at 7 ∷ standing_at 3 ∷ []

root_moved_rest :
    (c : ℕ)
    → 0 < c
    → c < length root_moved
    → parent c ≢ 0
    → weight_at root_moved (parent c) ≤ weight_at root_moved c
root_moved_rest zero p q r = absurd (omega arith)
root_moved_rest (suc zero) p q r = absurd (omega arith)
root_moved_rest (suc (suc zero)) p q r = absurd (omega arith)
root_moved_rest (suc (suc (suc c))) p q r = absurd (omega arith)

fix_root_example : (r : List Iter) × (fix root_moved 0 ≡ ok r) × (IsHeap r) × Perm r root_moved
fix_root_example = fix_root root_moved root_moved_rest

-- A bucket of negative keys is named by its highest key: those from -19 on are in bucket -10.
fixed_split_negative : fixed_split 10 (2 ^ 64 - 19) ≡ 2 ^ 64 - 10
unfolding fixed_split
fixed_split_negative = refl

-- The name of the key -7.
key_from_string-key_string_example : key_from_string (key_string (2 ^ 64 - 7)) ≡ some (2 ^ 64 - 7)
key_from_string-key_string_example = key_from_string-key_string (2 ^ 64 - 7) (omega arith)
