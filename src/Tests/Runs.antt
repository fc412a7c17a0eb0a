-- ===== src/Tests/Runs.antt =====
-- Whole calls on a bucket of two batches whose keys overlap.
use timeq.Base.{
  ℕ, ◌≡◌, refl, List, [], ◌∷◌, ◌++◌, true, false, Run, ok, ◌>>=◌, map, Option, none, inl,
}
use timeq.Base.Bytes.{zeros, big_endian, slice, slice_from, read_be, be_value}
use timeq.Item.{Item, Location, storage_size}
use timeq.Btree.{lookup, insert, remove}
use timeq.Vlog.{read_item_at}
use timeq.Vlog.Entry.{encode_all}
use timeq.Vlog.Iter.{at, next, current_location}
use timeq.Vlog.Heap.{fix, push, up, down, less, swap}
use timeq.Index.{Index, set, delete, empty, next_loc, loc_iter, value}
use timeq.Index.Codec.{written}
use timeq.Index.Codec
use timeq.Bucket.{Bucket, BucketIndex, BucketError, find_index, name_eq, put_index, add_loc}
use timeq.Bucket.Peek.{Peeked, peek, add_iter, peek_first, peek_loop, after_next, added}
use timeq.Bucket.Pop.{
  read, read_op_pop, finish_read, pop_read, pop_sync, pop_loop, keep_rest, drop_loc,
}
use timeq.Bucket.Delete.{
  Deleted, delete_keys, delete_range, cut_loop, cut_loc, split_loop, delete_loop, keep_part,
  push_joined,
}
use timeq.Tests.Indexes.{Locs}
use timeq.Tests.BucketTests.{keyed}

-- The batches of the keys 1 and 5, and 3 and 7.
abbrev pub overlapping : Index Locs
overlapping =
    set Locs (set Locs (empty Locs) (record { key = 1; off = 0; len = 2 }))
      (record { key = 3; off = 28; len = 2 })

abbrev pub two_batches : Bucket Locs
two_batches = record {
  key = 0;
  log = record {
    mmap = encode_all (keyed 1 ∷ keyed 5 ∷ keyed 3 ∷ keyed 7 ∷ []) ++ zeros 8;
    size = 56;
    sync_on_write = false;
    is_empty = false;
  };
  error_mode = 0;
  indexes = ([], record { log = record { file = []; sync_mode = true }; mem = overlapping }) ∷ [];
}

abbrev memories : List (List ℕ × BucketIndex Locs) → List (List (ℕ × List Location))
memories [] = []
memories ((name, idx) ∷ rest) = idx.mem.m ∷ memories rest

abbrev peeked : Run (Peeked Locs) → Run (List ℕ × ℕ)
peeked r = r >>= λ p. ok (map (λ (it : Item). it.key) p.items, p.npopped)

abbrev after_read :
    Run (Bucket Locs × Unit {0} × Option BucketError)
    → Run (List (List (ℕ × List Location)) × Option BucketError)
after_read r = r >>= λ (b, x, e). ok (memories b.indexes, e)

abbrev after_delete : Run (Deleted Locs) → Run (List (List (ℕ × List Location)) × ℕ)
after_delete r = r >>= λ d. ok (memories d.bucket.indexes, d.ndeleted)

-- peek takes the keys in their order from both batches.
peek_in_order : peeked (peek Locs two_batches 3 [] overlapping) ≡ ok (1 ∷ 3 ∷ 5 ∷ [], 3)
unfolding peek set next_loc loc_iter value at next fix push add_iter peek_first peek_loop after_next
    added lookup insert read_item_at big_endian slice slice_from read_be be_value storage_size up
    down less swap
peek_in_order = refl

-- A pop of two items leaves the second item of each batch.
read_pops_two :
    after_read
      (read Locs two_batches 2 [] (λ b x items. ok (b, x, inl read_op_pop)) tt (λ n. written) true)
    ≡ ok (
      ((5, record { key = 5; off = 14; len = 1 } ∷ [])
            ∷ (7, record { key = 7; off = 42; len = 1 } ∷ [])
            ∷ [])
          ∷ [],
      none,
    )
unfolding read peek set next_loc loc_iter value at next fix push add_iter peek_first peek_loop
    after_next added lookup insert read_item_at big_endian slice slice_from read_be be_value
    storage_size up down less swap finish_read pop_read pop_sync pop_loop keep_rest drop_loc
    current_location add_loc find_index name_eq put_index Codec.push Codec.sync delete remove
read_pops_two = refl

-- Deleting the keys from 4 to 6 takes one item away.
delete_cuts :
    after_delete (delete_keys Locs 5 two_batches [] 4 6 (λ n. written) true)
    ≡ ok (
      ((1, record { key = 1; off = 0; len = 1 } ∷ [])
            ∷ (3, record { key = 3; off = 28; len = 2 } ∷ [])
            ∷ [])
          ∷ [],
      1,
    )
unfolding delete_keys delete_range cut_loop cut_loc split_loop delete_loop keep_part push_joined set
    next_loc loc_iter value at next lookup insert read_item_at big_endian slice slice_from read_be
    be_value storage_size current_location find_index name_eq put_index Codec.push Codec.sync delete
    remove
delete_cuts = refl
