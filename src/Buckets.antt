-- ===== src/Buckets.antt =====
-- buckets.go: how a sorted batch is cut into the parts that go to the buckets. The buckets are an
-- interface here: `for_key` finds or opens a bucket, `push` pushes to it in all forks. A key function
-- is a pure function.
pub mod Binsplit
pub mod Groups
pub mod Tree
use timeq.Base.{
  ℕ, zero, suc, ◌+◌, ◌/◌, Bool, List, [], ◌∷◌, Option, none, some, length, take, drop, get_elem?,
  Run, ok, out_of_fuel, ◌>>=◌, or_panic, ◌==◌, if◌then◌else◌,
}
use timeq.Item.{Item}
use timeq.Bucket.{BucketError}
use timeq.Options.{error_mode_abort}

-- binsplit: every call halves the items, so `length items` calls are enough.
binsplit_loop : ℕ → List Item → ℕ → (ℕ → ℕ) → Run ℕ
binsplit_loop zero items comp fn = out_of_fuel
binsplit_loop (suc fuel) items comp fn =
    let l = length items in
    let pivot_idx = l / 2 in
    let left = binsplit_loop fuel (take pivot_idx items) comp fn in
    let right = binsplit_loop fuel (drop pivot_idx items) comp fn >>= λ n. ok (pivot_idx + n) in
    let halved =
      or_panic (get_elem? items pivot_idx) >>= λ it. if fn it.key == comp then right else left in
    if l == 0 then ok 0 else if l == 1 then ok 1 else halved

unfoldable pub binsplit : List Item → ℕ → (ℕ → ℕ) → Run ℕ
unfolding binsplit_loop
binsplit items comp fn = binsplit_loop (length items + 1) items comp fn

-- What pushSorted uses of the tree of buckets: forKey, and Push of the bucket that it returned.
pub record BucketStore (S E : Type 0) : Type 0 where
  pub for_key : S → ℕ → Run (S × Option E)
  pub push : S → ℕ → List Item → Run (S × Option E)

module _ {S E : Type 0} (store : BucketStore S E) (error_mode : ℕ) (fn : ℕ → ℕ) where
  -- An error stops the loop in the abort mode only.
  abbrev pub after_error : Option E → Option E
  after_error none = none
  after_error (some e) = if error_mode == error_mode_abort then some e else none

  -- The error that a round ends with, if any.
  unfoldable pub push_part : S → ℕ → List Item → Run (S × Option E)
  push_part s key_mod part = store.for_key s key_mod >>= λ (s1, e1). elim e1 [
    | some e ↦ ok (s1, after_error (some e))
    | none ↦ (store.push s1 key_mod part >>= λ (s2, e2). ok (s2, after_error e2))
  ]

  -- How the loop goes on after a round.
  abbrev pub after_part : (S → Run (S × Option E)) → S × Option E → Run (S × Option E)
  after_part again (s, some e) = ok (s, some e)
  after_part again (s, none) = again s

  -- The rounds of pushSorted that are left; each takes at least one item.
  unfoldable pub push_loop : ℕ → S → List Item → Run (S × Option E)
  unfolding push_part
  push_loop zero s items = out_of_fuel
  push_loop (suc fuel) s [] = ok (s, none)
  push_loop (suc fuel) s (it ∷ rest) = binsplit (it ∷ rest) (fn it.key) fn >>= λ next_idx.
      push_part s (fn it.key) (take next_idx (it ∷ rest))
      >>= after_part (λ s'. push_loop fuel s' (drop next_idx (it ∷ rest)))

  unfoldable pub push_sorted : S → List Item → Run (S × Option E)
  unfolding push_loop
  push_sorted s items = push_loop (length items + 1) s items
