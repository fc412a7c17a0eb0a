-- ===== src/Tests/Apis.antt =====
-- PopCopy and PeekCopy on a queue of two loaded buckets.
use mathlib.Core.List.Perm
use timeq.Btree.{pairs_map-IsOrderedMap}
use timeq.Item.{Location}
use timeq.Base.{◌++◌, arith, false}
use timeq.Base.Bytes.{zeros}
use timeq.Vlog.Entry.{encode_all}
use timeq.Index.Codec.{apply}
use timeq.Index.{empty}
use timeq.Index.Codec.Replay.{log_of}
use timeq.Bucket.{Bucket, BucketIndex}
use timeq.Bucket.Merge.{Batch}
use timeq.Bucket.Queue.{IsQueue}
use timeq.Api.Pops.{Popped}
use timeq.Api.Shelves.{Shelf, entries_of}
use timeq.Base.{Ends}
use timeq.Api.{Fork, fork_remove}
use timeq.Api.Removed.{IsGone, fork_remove-IsGone}
use timeq.Api.Lowest.{IsShelved, pop_copy-Popped}
use timeq.Tests.Indexes.{total}
use timeq.Tests.BucketTests.{keyed}
use timeq.Tests.Merges.{keyed-IsStorable}
use timeq.Tests.Queues.{queues, four, first-IsQueue}
use timeq.Base.{ℕ, ◌≡◌, refl, true, List, [], ◌∷◌, ok, none, some, Run, ◌>>=◌, map, Option}
use timeq.Bucket.Forks.{indexes_empty, len}
use timeq.Base.Bytes.{copy_at, big_endian, slice, slice_from, read_be, be_value}
use timeq.Item.{Item, storage_size, items_copy, copy_items, buffer_size}
use timeq.Btree.{lookup, insert, remove}
use timeq.Vlog.{read_item_at}
use timeq.Vlog.Iter.{at, next, current_location}
use timeq.Vlog.Heap.{fix, push, up, down, less, swap}
use timeq.Index.{set, delete, next_loc, loc_iter, value}
use timeq.Index.Codec.{written}
use timeq.Index.Codec
use timeq.Bucket.{find_index, name_eq, put_index, add_loc}
use timeq.Bucket.Peek.{peek, add_iter, peek_first, peek_loop, after_next, added}
use timeq.Bucket.Pop.{read, finish_read, pop_read, pop_sync, pop_loop, keep_rest, drop_loc}
use timeq.Buckets.Tree.{Buckets, TreeError}
use timeq.Buckets.Tree.Iter.{
  BucketCalls, iter, iter_keys, visit_key, read_all, read_entry, after_read,
}
use timeq.Api.{of_queue, consumer_read, pop_copy, pop_fn, peek_copy, peek_fn}
use timeq.Tests.Indexes.{Locs}
use timeq.Tests.Log.{all_well}
use timeq.Tests.Runs.{two_batches}
use timeq.Tests.Trees.{Slots, at_ease, options}

abbrev two_buckets : Buckets Locs Slots
two_buckets = record {
  tree = (0, some two_batches) ∷ (16, some (record two_batches { key = 16 })) ∷ [];
  trailers = [];
  forks = [];
  dirs = λ key. record { log_file = []; index_files = λ fork. none };
}

abbrev calls : ℕ → BucketCalls
calls key = record { log = all_well; writes = λ n. written; synced = true }

abbrev keys_of : Run (Buckets Locs Slots × List Item × Option TreeError) → Run (List ℕ)
keys_of r = r >>= λ (s, items, e). ok (map (λ (it : Item). it.key) items)

-- A pop of three items takes them from the first bucket.
pop_takes_three :
    keys_of (pop_copy Locs Slots at_ease options of_queue calls 3 two_buckets) ≡ ok (1 ∷ 3 ∷ 5 ∷ [])
unfolding pop_copy pop_fn consumer_read read_all iter iter_keys visit_key read_entry after_read read
    peek set next_loc loc_iter value at next fix push add_iter peek_first peek_loop after_next added
    lookup insert read_item_at big_endian slice slice_from read_be be_value storage_size up down
    less swap finish_read pop_read pop_sync pop_loop keep_rest drop_loc current_location add_loc
    find_index name_eq put_index Codec.push Codec.sync delete remove items_copy copy_items
    buffer_size copy_at indexes_empty len
pop_takes_three = refl

-- A peek of one item gives one of each bucket.
peek_takes_two :
    keys_of (peek_copy Locs Slots at_ease options of_queue calls 1 two_buckets) ≡ ok (1 ∷ 1 ∷ [])
unfolding peek_copy peek_fn consumer_read read_all iter iter_keys visit_key read_entry after_read
    read peek set next_loc loc_iter value at next fix push add_iter peek_first peek_loop after_next
    added lookup insert read_item_at big_endian slice slice_from read_be be_value storage_size up
    down less swap finish_read pop_read pop_sync pop_loop keep_rest drop_loc current_location
    add_loc find_index name_eq put_index Codec.push Codec.sync delete remove items_copy copy_items
    buffer_size copy_at indexes_empty len
peek_takes_two = refl

-- A bucket of one item.
abbrev late_batch : Batch
late_batch = (record { key = 17; off = 0; len = 1 }, keyed 17 ∷ [])

abbrev late_entry : BucketIndex Locs
late_entry = record {
  log = record { file = log_of ((late_batch.0, total 1) ∷ []); sync_mode = true };
  mem = set Locs (empty Locs) late_batch.0;
}

abbrev late : Bucket Locs
late = record {
  key = 16;
  log = record {
    mmap = encode_all (keyed 17 ∷ []) ++ zeros 8;
    size = 14;
    sync_on_write = false;
    is_empty = false;
  };
  error_mode = 0;
  indexes = ([], late_entry) ∷ [];
}

late-IsQueue : IsQueue Locs (pairs_map-IsOrderedMap (List Location)) late [] (keyed 17 ∷ [])
unfolding find_index name_eq apply set lookup insert big_endian
late-IsQueue = record {
  idx = late_entry;
  found = refl;
  sound = record {
    valid = record {
      ascending = (tt, tt);
      grouped = ((omega arith, (refl, tt)), tt);
      counted = refl;
    };
    journaled = record {
      records = (late_batch.0, total 1) ∷ [];
      shape = refl;
      storable = (
        record { key_bound = omega arith; off_bound = omega arith; len_bound = omega arith },
        tt,
      );
      replayed = refl;
    };
  };
  held = ∣ (
    late_batch ∷ [],
    (
      refl,
      (
        record {
          batch = record {
            front = [];
            back = zeros 8;
            shape = refl;
            offset = refl;
            inside = omega arith;
            small = omega arith;
            storable = (keyed-IsStorable 17 (omega arith), tt);
          };
          counted = refl;
          few = omega arith;
          ordered = (tt, tt);
          headed = refl;
        },
        tt,
      ),
      Perm.refl (keyed 17 ∷ []),
    ),
  ) ∣₁;
}

abbrev two_shelves : List (Shelf Locs)
two_shelves = (0, queues, four) ∷ (16, late, keyed 17 ∷ []) ∷ []

abbrev shelved : Buckets Locs Slots
shelved = record two_buckets { tree = entries_of Locs two_shelves }

shelved-IsShelved :
    IsShelved Locs
      (pairs_map-IsOrderedMap (List Location))
      Slots
      (pairs_map-IsOrderedMap (Option (Bucket Locs)))
      []
      shelved
      two_shelves
shelved-IsShelved = record {
  listed = refl;
  ascending = ((omega arith, tt), (tt, tt));
  queues = ((first-IsQueue, omega arith), ((late-IsQueue, omega arith), tt));
  parted = (
    ((omega arith, tt), ((omega arith, tt), ((omega arith, tt), ((omega arith, tt), tt)))),
    ((tt, tt), tt),
  );
}

pop_copy-Popped_example : ∥ (
    (p : Popped Locs
      (pairs_map-IsOrderedMap (List Location))
      Slots
      (pairs_map-IsOrderedMap (Option (Bucket Locs)))
      []
      at_ease
      options
      calls
      shelved
      two_shelves
      5
      [])
    × (pop_copy Locs Slots at_ease options of_queue calls 5 shelved
        ≡ ok (p.state, p.taken, none))) ∥₁
pop_copy-Popped_example =
    pop_copy-Popped Locs (pairs_map-IsOrderedMap (List Location)) Slots
      (pairs_map-IsOrderedMap (Option (Bucket Locs))) [] at_ease options calls of_queue refl shelved
      two_shelves shelved-IsShelved (λ k. refl) (λ k. refl) (λ key k. refl) (λ key. refl) 5
      (omega arith) (omega arith)

fork_remove-IsGone_example :
    Ends
      (λ (r : Fork × Buckets Locs Slots × Option TreeError). IsGone Locs Slots at_ease options r.0)
      (fork_remove Locs Slots at_ease options
        (record { name = 102 ∷ []; q = true })
        true
        (λ key. none)
        (λ key. true)
        shelved)
fork_remove-IsGone_example =
    fork_remove-IsGone Locs Slots at_ease options (record { name = 102 ∷ []; q = true }) true
      (λ key. none) (λ key. true) shelved
