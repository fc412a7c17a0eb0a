-- ===== src/Bucket/Pop.antt =====
-- popSync and Read of bucket.go.
use timeq.Base.{
  ℕ, zero, suc, ◌+◌, Bool, false, List, [], ◌∷◌, Option, none, some, Run, ok, ◌>>=◌, if◌then◌else◌,
  ◌⊎◌, inl, inr,
}
use timeq.Item.{Item, Location}
use timeq.Btree.{OrderedMap}
use timeq.Vlog.Iter.{Iter, current_location}
use timeq.Index.{delete, trailer}
use timeq.Index.Codec.{WriteAnswer, FileError, Writer}
use timeq.Index.Codec
use timeq.Bucket.{
  Bucket, BucketIndex, BucketError, ForkName, no_such_fork, add_loc, with_log, put_index,
  idx_for_fork, file_error,
}
use timeq.Bucket.Peek.{peek}

-- What the callback of Read asks for.
pub data ReadOp : Type 0 where
  read_op_peek read_op_pop : ReadOp

abbrev pub dead_location : ℕ → Location
dead_location key = record { key = key; off = 0; len = 0 }

module _ (M : OrderedMap (List Location)) where
  -- `idx.Mem.Delete(key)` and the push of a record of no items.
  unfoldable pub drop_loc : BucketIndex M → ℕ → WriteAnswer → Run (BucketIndex M × Option FileError)
  drop_loc idx key os = delete M idx.mem key >>= λ r.
      ok (with_log M r.0 (Codec.push idx.log (dead_location key) (trailer M r.0) os))

  abbrev pub unless_failed :
      BucketIndex M × Option FileError
      → (BucketIndex M → Run (BucketIndex M × Option FileError))
      → Run (BucketIndex M × Option FileError)
  unless_failed (idx, some e) f = ok (idx, some e)
  unless_failed (idx, none) f = f idx

  -- What of the batch is left is set, as a new location.
  unfoldable pub keep_rest : BucketIndex M → Iter → WriteAnswer → BucketIndex M × Option FileError
  unfolding add_loc
  keep_rest idx li os = if li.exhausted then (idx, none) else add_loc M idx (current_location li) os

  -- popSync's loop. The writes are numbered from `k` on, two for each iterator.
  unfoldable pub pop_loop :
      BucketIndex M → List Iter → (ℕ → WriteAnswer) → ℕ → Run (BucketIndex M × Option FileError)
  pop_loop idx [] os k = ok (idx, none)
  pop_loop idx (li ∷ iters) os k = unless_failed (keep_rest idx li (os k)) (λ idx'.
      drop_loc idx' li.first_key (os (k + 1)) >>= λ r.
      unless_failed r (λ idx''. pop_loop idx'' iters os (k + 2)))

  -- The records are synced last.
  unfoldable pub pop_sync :
      BucketIndex M → List Iter → (ℕ → WriteAnswer) → Bool → Run (BucketIndex M × Option FileError)
  unfolding pop_loop
  pop_sync idx [] os synced = ok (idx, none)
  pop_sync idx (li ∷ iters) os synced = pop_loop idx (li ∷ iters) os 0 >>= λ r.
      unless_failed r (λ idx'. ok (idx', Codec.sync idx'.log false synced))

  -- The callback of Read, with the variables that it captures: it may change the bucket, by a push,
  -- and answers with an operation or an error.
  abbrev pub Callback : Type 0 → Type 0
  Callback X = Bucket M → X → List Item → Run (Bucket M × X × (ReadOp ⊎ BucketError))

  abbrev pub popped :
      Bucket M → ForkName → BucketIndex M × Option FileError → Bucket M × Option BucketError
  popped b fork (idx, e) = (record b { indexes = put_index M b.indexes fork idx }, file_error M e)

  -- The pop after the callback.
  unfoldable pub pop_read :
      Bucket M
      → ForkName
      → Option (List Iter)
      → (ℕ → WriteAnswer)
      → Bool
      → Run (Bucket M × Option BucketError)
  unfolding pop_sync
  pop_read b fork none os synced = ok (b, none)
  pop_read b fork (some iters) os synced = elim (idx_for_fork M b fork) [
    | none ↦ ok (b, some no_such_fork)
    | some idx ↦ (pop_sync idx iters os synced >>= λ r. ok (popped b fork r))
  ]

  -- What Read returns, beside the variables of its callback.
  abbrev pub beside :
      {X : Type 0} → X → Bucket M × Option BucketError → Bucket M × X × Option BucketError
  beside x (b, e) = (b, x, e)

  unfoldable pub finish_read :
      {X : Type 0}
      → ForkName
      → Option (List Iter)
      → (ℕ → WriteAnswer)
      → Bool
      → Bucket M × X × (ReadOp ⊎ BucketError)
      → Run (Bucket M × X × Option BucketError)
  unfolding pop_read
  finish_read fork iters os synced (b, x, inr e) = ok (b, x, some e)
  finish_read fork iters os synced (b, x, inl read_op_peek) = ok (b, x, none)
  finish_read fork iters os synced (b, x, inl read_op_pop) =
      pop_read b fork iters os synced >>= λ r. ok (beside x r)

  -- Read: `n` is the int argument, or 0 for a negative one. The slice `dst` is only a buffer.
  unfoldable pub read :
      {X : Type 0}
      → Bucket M
      → ℕ
      → ForkName
      → Callback X
      → X
      → (ℕ → WriteAnswer)
      → Bool
      → Run (Bucket M × X × Option BucketError)
  unfolding peek finish_read
  read b zero fork fn x os synced = ok (b, x, none)
  read b (suc n) fork fn x os synced = elim (idx_for_fork M b fork) [
    | none ↦ ok (b, x, some no_such_fork)
    | some idx ↦
        (peek M b (suc n) [] idx.mem >>= λ p. elim p.err [
          | some e ↦ ok (b, x, some e)
          | none ↦ (fn b x p.items >>= λ r. finish_read fork p.iters os synced r)
        ])
  ]
