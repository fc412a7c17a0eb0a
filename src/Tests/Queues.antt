-- ===== src/Tests/Queues.antt =====
-- A bucket of two forks over two batches whose keys overlap, as priority queues.
use mathlib.Core.List.Perm
use timeq.Base.{◌≡◌, refl, true, List, [], ◌∷◌, arith}
use timeq.Item.{Item, Location}
use timeq.Btree.{pairs_map-IsOrderedMap, lookup, insert}
use timeq.Index.{set}
use timeq.Index.Codec.{apply}
use timeq.Index.Codec.Replay.{log_of}
use timeq.Bucket.{Bucket, BucketIndex, find_index, name_eq}
use timeq.Bucket.Forks.{len}
use timeq.Bucket.Merge.{all_items}
use timeq.Bucket.PopJournal.{IsSound}
use timeq.Bucket.Queue.{IsQueue, len-IsQueue}
use timeq.Tests.Indexes.{Locs, total}
use timeq.Tests.Runs.{overlapping, two_batches}
use timeq.Tests.Merges.{
  first_batch, second_batch, first_batch-IsBacked, second_batch-IsBacked, overlapping-IsValid,
  listed,
}

abbrev entry_2 : BucketIndex Locs
entry_2 = record {
  log = record {
    file = log_of ((first_batch.0, total 2) ∷ (second_batch.0, total 4) ∷ []);
    sync_mode = true;
  };
  mem = overlapping;
}

pub entry_2-IsSound : IsSound Locs (pairs_map-IsOrderedMap (List Location)) entry_2
unfolding apply set lookup insert
entry_2-IsSound = record {
  valid = overlapping-IsValid;
  journaled = record {
    records = (first_batch.0, total 2) ∷ (second_batch.0, total 4) ∷ [];
    shape = refl;
    storable = (
      record { key_bound = omega arith; off_bound = omega arith; len_bound = omega arith },
      (record { key_bound = omega arith; off_bound = omega arith; len_bound = omega arith }, tt),
    );
    replayed = refl;
  };
}

abbrev pub queues : Bucket Locs
queues = record two_batches { indexes = ([], entry_2) ∷ (102 ∷ [], entry_2) ∷ [] }

abbrev pub four : List Item
four = all_items (first_batch ∷ second_batch ∷ [])

pub first-IsQueue : IsQueue Locs (pairs_map-IsOrderedMap (List Location)) queues [] four
unfolding find_index name_eq
first-IsQueue = record {
  idx = entry_2;
  found = refl;
  sound = entry_2-IsSound;
  held = ∣ (
    first_batch ∷ second_batch ∷ [],
    (listed, (first_batch-IsBacked, (second_batch-IsBacked, tt)), Perm.refl four),
  ) ∣₁;
}

len-IsQueue_example : len Locs queues [] ≡ 4
len-IsQueue_example =
    len-IsQueue Locs (pairs_map-IsOrderedMap (List Location)) queues [] four first-IsQueue
