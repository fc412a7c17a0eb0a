-- ===== src/Tests/Listings.antt =====
-- A directory with a fork, listed anew; a Sync that fails; a Push that the value log refuses.
use timeq.Base.{ℕ, ◌≡◌, refl, ap, true, false, List, [], ◌∷◌, arith, ok, ◌>>=◌, none, some, Option}
use timeq.Btree.{pairs_map-IsOrderedMap, insert, lookup}
use timeq.Vlog.{PushAnswers}
use timeq.Vlog
use timeq.Index.{set}
use timeq.Bucket.{Bucket, find_index, name_eq}
use timeq.Bucket.Forks.{indexes_empty}
use timeq.Bucket.Names.{idx_name, consumer_name, consumer_name-idx_name}
use timeq.Bucket.Open.Again.{IsReopenable, open_bucket-again}
use timeq.Buckets.Tree.{
  Buckets, Dir, set_opened, open_key, find_or_open, for_key, close_unused, nloaded,
}
use timeq.Buckets.Tree.Forking.{
  DirEntry, file, dir, fetch_first, fetch_forks, list_entry, list_entries, load_listed, load_all,
  names_of, with_forks,
}
use timeq.Buckets.Tree.Forking.Lost.{load_all-forks}
use timeq.Buckets.Tree.Iter.{sync_all}
use timeq.Buckets.Tree.Iter.Visits.{sync_errors, sync_all-sync_errors}
use timeq.Tests.Log.{log_of_one, log_of_one-Holds, old_item}
use timeq.Tests.Indexes.{Locs, total}
use timeq.Tests.BucketTests.{entry_1, entry_1-IsJournaled}
use timeq.Tests.Reopens.{all_open, all_open-AllOpen}
use timeq.Tests.Trees.{Slots, three_loaded, three_loaded-Ascending, at_ease, options}

consumer_name-idx_name_example : consumer_name (idx_name (102 ∷ [])) ≡ some (102 ∷ [])
consumer_name-idx_name_example = consumer_name-idx_name (102 ∷ [])

-- One bucket, whose only index is that of the queue.
abbrev main_only : Bucket Locs
main_only = record { key = 0; log = log_of_one; error_mode = 0; indexes = ([], entry_1) ∷ [] }

main_only-IsReopenable : IsReopenable Locs 4 [] main_only
unfolding set lookup insert find_index name_eq indexes_empty
main_only-IsReopenable = record {
  used = [];
  first = old_item;
  items = [];
  spare = 40;
  holds = log_of_one-Holds;
  filled = refl;
  synced = refl;
  names = refl;
  distinct = (refl, tt);
  stored = (record { journaled = entry_1-IsJournaled; used = omega arith; synced = refl }, tt);
  busy = refl;
}

-- The index logs of the queue and of its fork "f".
abbrev forked_dir : ℕ → Dir
forked_dir key = record { log_file = log_of_one.mmap; index_files = λ fork. some entry_1.log.file }

abbrev listing : List DirEntry
listing = file true ∷ dir (some 0) (([], total 2) ∷ (102 ∷ [], total 2) ∷ []) ∷ []

abbrev listed : Buckets Locs Slots
listed = record {
  tree = (0, some main_only) ∷ [];
  trailers = ((0, []), total 2) ∷ ((0, 102 ∷ []), total 2) ∷ [];
  forks = [];
  dirs = forked_dir;
}

listing_run :
    load_all Locs Slots at_ease options (λ names. names) forked_dir listing ≡ ok (some listed)
unfolding load_all load_listed list_entries list_entry fetch_forks fetch_first for_key find_or_open
    open_key close_unused nloaded lookup insert
listing_run =
    ap
      (λ o.
        ((o >>= λ r. ok (set_opened Locs Slots (record listed { tree = (0, none) ∷ [] }) 0 r))
          >>= λ r. ok (names_of Locs Slots at_ease options (λ names. names) r))
        >>= λ f. ok (with_forks Locs Slots at_ease options f))
      (open_bucket-again Locs 4096 3 4 main_only [] (λ fork. entry_1.log.file) all_open []
        main_only-IsReopenable (refl, tt) all_open-AllOpen)

load_all-forks_example : listed.forks ≡ []
load_all-forks_example =
    load_all-forks Locs Slots at_ease options (pairs_map-IsOrderedMap (Option (Bucket Locs)))
      (λ names. names) forked_dir listing listed refl listing_run

-- A system that cannot grow a file, and cannot sync one.
abbrev failing : PushAnswers
failing = record { truncated = false; mremap = λ m n. none; synced = false }

sync_all-sync_errors_example :
    sync_all Locs Slots at_ease options (λ key. failing) (λ key fork. true) three_loaded
    ≡ ok (
      three_loaded,
      sync_errors Locs Slots at_ease options (λ key. failing) (λ key fork. true) three_loaded.tree,
      none,
    )
sync_all-sync_errors_example =
    sync_all-sync_errors Locs Slots at_ease options (λ key. failing) (λ key fork. true)
      (pairs_map-IsOrderedMap (Option (Bucket Locs))) three_loaded three_loaded-Ascending
