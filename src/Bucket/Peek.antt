-- ===== src/Bucket/Peek.antt =====
-- peek of bucket.go: the lowest items of a fork, by a heap of iterators over the batches of its index.
use timeq.Base.{
  ℕ, zero, suc, ◌+◌, Bool, true, false, not, ◌||◌, List, [], ◌∷◌, ◌++◌, Option, none, some, Run, ok,
  panic, out_of_fuel, ◌>>=◌, if◌then◌else◌,
}
use timeq.Base.Words.{le_i64}
use timeq.Item.{Item, Location}
use timeq.Btree.{OrderedMap}
use timeq.Vlog.{LogError}
use timeq.Vlog.Iter.{Iter}
use timeq.Vlog.Iter
use timeq.Vlog.Heap
use timeq.Index.{Index, LocIter, loc_iter, next_loc, value}
use timeq.Bucket.{Bucket, BucketError, log_error, mmap_fault, log_at}

module _ (M : OrderedMap (List Location)) where
  -- The iterators that peek works with, whether the index is exhausted, and addIter's error.
  pub record Added : Type 0 where
    pub iters : List Iter
    pub locs : LocIter M
    pub index_exhausted : Bool
    pub err : Option LogError

  -- addIter once the new iterator moved to its first item; `batchIter.Next()` answered `more`.
  unfoldable pub added : List Iter → LocIter M → Iter × Bool → Run Added
  added iters locs (li, false) =
      ok (record { iters = iters; locs = locs; index_exhausted = false; err = li.err })
  added iters locs (li, true) = Heap.push iters li >>= λ iters'. ok (record {
    iters = iters';
    locs = (next_loc M locs).0;
    index_exhausted = not ((next_loc M locs).1);
    err = none;
  })

  unfoldable pub add_iter : Bucket M → List Iter → LocIter M → Run Added
  unfolding added
  add_iter b iters locs = Iter.next b.log (log_at M b (value M locs)) >>= λ r. added iters locs r

  -- What peek returns: nil for the iterators where it has none.
  pub record Peeked : Type 0 where
    pub iters : Option (List Iter)
    pub items : List Item
    pub npopped : ℕ
    pub err : Option BucketError

  abbrev pub failed : List Item → BucketError → Peeked
  failed dst e = record { iters = none; items = dst; npopped = 0; err = some e }

  -- `if err != nil { return nil, dst, 0, err }`
  abbrev pub unless_error : List Item → Option LogError → Run Peeked → Run Peeked
  unless_error dst (some e) next = ok (failed dst (log_error e))
  unless_error dst none next = next

  -- The next index entry may hold a lower item than the first iterator's.
  abbrev pub needs_next : Added → Iter → Bool
  needs_next s curr =
      if s.index_exhausted
      then false
      else curr.exhausted || le_i64 ((value M s.locs).key) curr.item.key

  -- A round of peek's loop once the first iterator has moved to `curr`; `again` makes the next rounds.
  unfoldable pub after_next :
      Bucket M
      → (Added → List Item → ℕ → Run Peeked)
      → Added
      → List Iter
      → List Item
      → ℕ
      → Iter
      → Run Peeked
  unfolding add_iter
  after_next b again s others dst num curr = unless_error dst curr.err (
      Heap.fix (curr ∷ others) 0 >>= λ iters.
      if needs_next s curr
      then (add_iter b iters s.locs >>= λ s'. unless_error dst s'.err (again s' dst num))
      else again (record s { iters = iters }) dst num)

  -- The rounds of peek's loop, of which `n` are left. `(*batchIters)[0]` of no iterators panics.
  unfoldable pub peek_loop : Bucket M → ℕ → Added → List Item → ℕ → Run Peeked
  unfolding after_next
  peek_loop b zero s dst num =
      ok (record { iters = some s.iters; items = dst; npopped = num; err = none })
  peek_loop b (suc n) s dst num = elim s.iters [
    | [] ↦ panic
    | li ∷ others ↦
        let moved = Iter.next b.log li >>= λ r.
        after_next b (λ s dst num. peek_loop b n s dst num) s others (dst ++ (li.item ∷ []))
          (num + 1) r.0 in
        if li.exhausted
        then ok (record { iters = some s.iters; items = dst; npopped = num; err = none })
        else moved
  ]

  -- peek once the first batch was added, or was not.
  unfoldable pub peek_first : Bucket M → ℕ → List Item → Added → Run Peeked
  unfolding peek_loop
  peek_first b n dst s = elim s.err [
    | some e ↦ ok (failed dst (log_error e))
    | none ↦ elim s.iters [
      | [] ↦ ok (record { iters = none; items = dst; npopped = 0; err = none })
      | li ∷ others ↦ peek_loop b n s dst 0
    ]
  ]

  -- What recoverMmapError makes of a panic in peek, which changes no state.
  abbrev pub recovered : Run Peeked → Run Peeked
  recovered (ok p) = ok p
  recovered panic = ok (failed [] mmap_fault)
  recovered out_of_fuel = out_of_fuel

  -- peek for the index `idx`. `n` is the int argument, or 0 for a negative one.
  unfoldable pub peek : Bucket M → ℕ → List Item → Index M → Run Peeked
  unfolding peek_first add_iter
  peek b n dst idx =
      let locs = loc_iter M idx in
      let started = add_iter b [] ((next_loc M locs).0) >>= λ s. peek_first b n dst s in
      recovered (
        if (next_loc M locs).1
        then started
        else ok (record { iters = none; items = dst; npopped = 0; err = none }))
