-- ===== src/Tests/Reopens.antt =====
-- A bucket of two forks opened again, and a fork of an empty index.
use timeq.Base.{ℕ, ◌≡◌, refl, true, List, [], ◌∷◌, arith, ok, inl, some}
use timeq.Index.{set}
use timeq.Index.Codec.{written}
use timeq.Btree.{lookup, insert}
use timeq.Bucket.{Bucket, ForkName, find_index, name_eq}
use timeq.Bucket.Open.{BucketAnswers, IndexAnswers, open_bucket}
use timeq.Bucket.Open.Again.{IsStored, IsReopenable, AllOpen, open_bucket-again}
use timeq.Bucket.Forks.{indexes_empty}
use timeq.Tests.Log.{log_of_one, log_of_one-Holds, old_item, reopened}
use timeq.Tests.Indexes.{Locs}
use timeq.Tests.BucketTests.{entry_1, entry_1-IsJournaled}

abbrev pub stored : Bucket Locs
stored = record {
  key = 0;
  log = log_of_one;
  error_mode = 0;
  indexes = (102 ∷ [], entry_1) ∷ ([], entry_1) ∷ [];
}

abbrev pub index_opens : IndexAnswers
index_opens = record {
  opened = true;
  removed = true;
  created = true;
  writes = λ n. written;
  reopened = true;
}

abbrev pub all_open : BucketAnswers Locs
all_open = record {
  made = true;
  log = reopened;
  indexes = λ fork. index_opens;
  closed = true;
  removed = true;
}

abbrev index_files : ForkName → List ℕ
index_files fork = entry_1.log.file

entry-IsStored : (name : ForkName) → IsStored Locs true (name, entry_1)
unfolding set lookup insert
entry-IsStored name = record { journaled = entry_1-IsJournaled; used = omega arith; synced = refl }

pub stored-IsReopenable : IsReopenable Locs 4 ((102 ∷ []) ∷ []) stored
unfolding set lookup insert find_index name_eq indexes_empty
stored-IsReopenable = record {
  used = [];
  first = old_item;
  items = [];
  spare = 40;
  holds = log_of_one-Holds;
  filled = refl;
  synced = refl;
  names = refl;
  distinct = (refl, (refl, tt));
  stored = (entry-IsStored (102 ∷ []), (entry-IsStored [], tt));
  busy = refl;
}

pub all_open-AllOpen : AllOpen Locs all_open
all_open-AllOpen = record { made = refl; log = refl; indexes = λ fork. (refl, refl) }

open_bucket-again_example :
    open_bucket Locs 4096 3 4 0
      (some 0)
      (all_open ∷ [])
      log_of_one.mmap
      index_files
      ((102 ∷ []) ∷ [])
    ≡ ok (inl stored)
open_bucket-again_example =
    open_bucket-again Locs 4096 3 4 stored ((102 ∷ []) ∷ []) index_files all_open []
      stored-IsReopenable (refl, (refl, tt)) all_open-AllOpen
