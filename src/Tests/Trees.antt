-- ===== src/Tests/Trees.antt =====
-- A tree of three loaded buckets.
use timeq.Base.{◌≡◌, ◌≤◌, refl, true, [], ◌∷◌, arith, ok, inl, none, some, Option}
use timeq.Btree.{OrderedMap, pairs_map, pairs_map-IsOrderedMap, insert}
use timeq.Btree.Pairs.{Ascending}
use timeq.Bucket.{Bucket, find_index, name_eq}
use timeq.Options.{Options, shift_split}
use timeq.Buckets.Tree.{Buckets, Env, nloaded, close_bucket, close_unused, for_key, fork_len}
use timeq.Buckets.Tree.Closing.Count.{close_unused-nloaded}
use timeq.Buckets.Tree.Lengths.{AllForked, close_unused-fork_len}
use timeq.Buckets.Tree.Opened.{for_key-nloaded, close_bucket-for_key}
use timeq.Tests.Indexes.{Locs}
use timeq.Tests.Reopens.{stored, stored-IsReopenable, all_open, all_open-AllOpen}

abbrev pub Slots : OrderedMap (Option (Bucket Locs))
Slots = pairs_map (Option (Bucket Locs))

abbrev pub three_loaded : Buckets Locs Slots
three_loaded = record {
  tree =
      (0, some stored)
      ∷ (16, some (record stored { key = 16 }))
      ∷ (32, some (record stored { key = 32 }))
      ∷ [];
  trailers = [];
  forks = (102 ∷ []) ∷ [];
  dirs = λ key. record { log_file = []; index_files = λ fork. none };
}

abbrev pub at_ease : Env Locs Slots
at_ease = record {
  page_size = 4096;
  fuel = 3;
  calls = λ key. all_open ∷ [];
  closes = λ key. true;
  removes = λ key. true;
}

abbrev pub options : Options
options = record {
  sync_mode = 4;
  error_mode = 0;
  split = some (shift_split 4);
  max_parallel_open_buckets = 3;
}

pub three_loaded-Ascending : Ascending three_loaded.tree
three_loaded-Ascending = ((omega arith, (omega arith, tt)), ((omega arith, tt), (tt, tt)))

close_unused-nloaded_example :
    nloaded Locs Slots (close_unused Locs Slots at_ease options 1 three_loaded).0 ≡ 1
unfolding nloaded
close_unused-nloaded_example =
    close_unused-nloaded Locs Slots (pairs_map-IsOrderedMap (Option (Bucket Locs))) at_ease options
      1 three_loaded three_loaded-Ascending (omega arith)

three_loaded-AllForked : AllForked Locs Slots [] three_loaded.tree
unfolding find_index name_eq
three_loaded-AllForked = ((_, refl), ((_, refl), ((_, refl), tt)))

close_unused-fork_len_example :
    fork_len Locs Slots (close_unused Locs Slots at_ease options 1 three_loaded).0 []
    ≡ fork_len Locs Slots three_loaded []
close_unused-fork_len_example =
    close_unused-fork_len Locs Slots [] (pairs_map-IsOrderedMap (Option (Bucket Locs))) at_ease
      options 1 three_loaded three_loaded-Ascending three_loaded-AllForked

abbrev pub one_closed : Buckets Locs Slots
one_closed = close_bucket Locs Slots three_loaded 0 stored

close_bucket-for_key_example :
    for_key Locs Slots at_ease options one_closed 0
    ≡ ok (record one_closed { tree = insert 0 (some stored) one_closed.tree }, inl stored)
unfolding nloaded close_bucket insert
close_bucket-for_key_example =
    close_bucket-for_key Locs Slots (pairs_map-IsOrderedMap (Option (Bucket Locs))) at_ease options
      three_loaded stored all_open [] stored-IsReopenable refl refl all_open-AllOpen (omega arith)
      (omega arith)

for_key-nloaded_example :
    Ascending (insert 0 (some stored) one_closed.tree)
    × (nloaded Locs Slots (record one_closed { tree = insert 0 (some stored) one_closed.tree }) ≤ 3)
unfolding nloaded close_bucket insert
for_key-nloaded_example =
    for_key-nloaded Locs Slots (pairs_map-IsOrderedMap (Option (Bucket Locs))) at_ease options 0
      one_closed (record one_closed { tree = insert 0 (some stored) one_closed.tree }) (inl stored)
      ((omega arith, (omega arith, tt)), ((omega arith, tt), (tt, tt))) (omega arith) (omega arith)
      (omega arith)
      (close_bucket-for_key Locs Slots (pairs_map-IsOrderedMap (Option (Bucket Locs))) at_ease
        options three_loaded stored all_open [] stored-IsReopenable refl refl all_open-AllOpen
        (omega arith) (omega arith))
