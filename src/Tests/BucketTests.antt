-- ===== src/Tests/BucketTests.antt =====
-- A bucket with two forks, and a store of buckets that notes what is pushed.
use timeq.Base.{
  ℕ, ◌≡◌, ◌^◌, refl, ltb, if◌then◌else◌, true, false, List, [], ◌∷◌, ◌++◌, arith, ok, none,
}
use timeq.Item.{Item, Location}
use timeq.Btree.{pairs_map-IsOrderedMap}
use timeq.Vlog.{Log}
use timeq.Vlog.Iter.{Iter, current_location}
use timeq.Index.{empty, set}
use timeq.Index.Locations.{set_lem}
use timeq.Index.Codec.{written, apply, load}
use timeq.Index.Codec.Replay.{log_of, empty-IsValid}
use timeq.Bucket.{Bucket, BucketIndex, BucketError, push}
use timeq.Bucket.Pop.{pop_sync}
use timeq.Bucket.Journal.{IsJournaled}
use timeq.Bucket.PopJournal.{IsSound, IsPoppable, pop_sync-IsSound}
use timeq.Buckets.{BucketStore, push_sorted}
use timeq.Buckets.Groups.{Group, groups, push_groups}
use timeq.Base.Words.{rank}
use timeq.Options.{shift_split}
use timeq.Options.Split.{shift_split_mono, push_sorted-shift_split}
use timeq.Btree.{lookup, insert}
use timeq.Bucket.{find_index, name_eq}
use timeq.Bucket.Forks.{fork}
use timeq.Bucket.Copies.{fork-load}
use timeq.Index.Locations.{locations}
use timeq.Base.{◌-◌, ◌≤◌}
use timeq.Index.{Index}
use mathlib.Core.List.{Perm}
use timeq.Tests.Log.{log_of_one}
use timeq.Tests.Indexes.{Locs, loc_1, loc_1-IsStorable, total}

abbrev pub entry_1 : BucketIndex Locs
entry_1 = record {
  log = record { file = log_of ((loc_1, total 2) ∷ []); sync_mode = true };
  mem = set Locs (empty Locs) loc_1;
}

pub entry_1-IsJournaled : IsJournaled Locs entry_1
unfolding apply
entry_1-IsJournaled = record {
  records = (loc_1, total 2) ∷ [];
  shape = refl;
  storable = (loc_1-IsStorable, tt);
  replayed = refl;
}

entry_1-IsSound : IsSound Locs (pairs_map-IsOrderedMap (List Location)) entry_1
entry_1-IsSound = record {
  valid =
      (set_lem Locs (pairs_map-IsOrderedMap (List Location)) (empty Locs)
        (empty-IsValid Locs (pairs_map-IsOrderedMap (List Location))) loc_1).0;
  journaled = entry_1-IsJournaled;
}

-- One of the two items of the batch at loc_1 was read, and the other one is left.
abbrev half_read : Iter
half_read = record {
  first_key = 4;
  curr_off = 30;
  prev_off = 15;
  item = record { key = 6; blob = 1 ∷ [] };
  err = none;
  curr_len = 0;
  prev_len = 1;
  exhausted = false;
  continue_on_err = false;
}

half_read-IsPoppable : IsPoppable half_read
unfolding current_location
half_read-IsPoppable = record {
  key_bound = omega arith;
  left = λ e. (
    record { key_bound = omega arith; off_bound = omega arith; len_bound = omega arith },
    omega arith,
  );
}

pop_sync-IsSound_example :
    (idx' : BucketIndex Locs) × (pop_sync Locs entry_1 (half_read ∷ []) (λ n. written) true
      ≡ ok (idx', none))
    × IsSound Locs (pairs_map-IsOrderedMap (List Location)) idx'
pop_sync-IsSound_example =
    pop_sync-IsSound Locs (pairs_map-IsOrderedMap (List Location)) entry_1 (half_read ∷ [])
      (λ n. written) (λ n. refl) entry_1-IsSound (half_read-IsPoppable, tt)

abbrev two_forks : Bucket Locs
two_forks = record {
  key = 0;
  log = log_of_one;
  error_mode = 0;
  indexes = ([], entry_1) ∷ (102 ∷ [], entry_1) ∷ [];
}

-- Buckets of ten keys.
abbrev tens : ℕ → ℕ
tens key = if ltb key 10 then 0 else if ltb key 20 then 10 else 20

abbrev pub keyed : ℕ → Item
keyed key = record { key = key; blob = [] }

abbrev noted : BucketStore (List Group) BucketError
noted = record {
  for_key = λ s k. ok (s, none);
  push = λ s k part. ok (s ++ ((k, part) ∷ []), none);
}

shift_split_mono_example : rank (shift_split 4 (2 ^ 64 - 3)) ≤ rank (shift_split 4 37)
shift_split_mono_example =
    shift_split_mono 4 (omega arith) (2 ^ 64 - 3) 37 (omega arith) (omega arith) (omega arith)

push_sorted-shift_split_example :
    push_sorted noted 0 (shift_split 3) [] (keyed 3 ∷ keyed 5 ∷ keyed 9 ∷ [])
    ≡ push_groups
        (shift_split 3)
        noted
        0
        []
        (groups (shift_split 3) (keyed 3 ∷ keyed 5 ∷ keyed 9 ∷ []))
push_sorted-shift_split_example =
    push_sorted-shift_split 3 (omega arith) noted 0 [] (keyed 3 ∷ keyed 5 ∷ keyed 9 ∷ [])
      ((omega arith, (omega arith, tt)), ((omega arith, tt), (tt, tt)))
      (omega arith, (omega arith, (omega arith, tt)))

fork-load_example :
    (new : BucketIndex Locs) × (loaded : Index Locs) × (fork Locs two_forks []
        (5 ∷ [])
        true
        []
        2
        (λ n. written)
      ≡ ok (record two_forks { indexes = two_forks.indexes ++ ((5 ∷ [], new) ∷ []) }, none))
    × (new.mem ≡ entry_1.mem)
    × (load Locs new.log.file ≡ ok (loaded, none))
    × Perm (locations Locs loaded) (loc_1 ∷ [])
unfolding find_index name_eq set lookup insert
fork-load_example =
    fork-load Locs (pairs_map-IsOrderedMap (List Location)) two_forks [] (5 ∷ []) entry_1 true
      (λ n. written) (λ n. refl) refl refl entry_1-IsSound.valid (loc_1-IsStorable, tt)
      (omega arith, tt)
