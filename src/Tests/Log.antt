-- ===== src/Tests/Log.antt =====
-- A value log that holds an item, and a push of two more.
use timeq.Base.{
  ℕ, ◌≡◌, ◌+◌, ◌-◌, refl, Bool, true, false, List, [], ◌∷◌, ◌++◌, length, arith, All, ok, none,
  some,
}
use timeq.Base.Bytes.{zeros, big_endian}
use timeq.Item.{Item, Location}
use timeq.Item.Sizes.{batch_size}
use timeq.Vlog.{Log, PushAnswers, OpenAnswers, opened_log, push, open_log, write_item, read_item_at}
use timeq.Vlog.Iter.{Iter, at, collect, no_item}
use timeq.Vlog.Iter.Walk.{past_all, Before}
use timeq.Vlog.Entry.{encode, encode_all, Holds, IsStorable, write_item-encode, read_item_at-encode}
use timeq.Vlog.Push.{Succeeds, push-encode}
use timeq.Vlog.Batch.{HasBatch}
use timeq.Vlog.Reopen.{open_log-Holds}
use timeq.Vlog.{find_next_item}
use timeq.Vlog.Search.{find_next_item-bounds}
use timeq.Base.{◌≤◌, ◌<◌}
use timeq.Vlog.RoundTrip.{collect-push}

abbrev pub old_item : Item
old_item = record { key = 3; blob = 7 ∷ [] }

abbrev pub item_a : Item
item_a = record { key = 5; blob = 1 ∷ 2 ∷ [] }

abbrev pub item_b : Item
item_b = record { key = 9; blob = [] }

abbrev pub used_bytes : List ℕ
used_bytes = encode_all (old_item ∷ [])

abbrev pub log_of_one : Log
log_of_one = record {
  mmap = used_bytes ++ zeros 40;
  size = 15;
  sync_on_write = false;
  is_empty = false;
}

pub log_of_one-Holds : Holds log_of_one used_bytes 40
unfolding big_endian
log_of_one-Holds = record { shape = refl; sized = refl }

-- A system on which every call succeeds.
abbrev pub all_well : PushAnswers
all_well = record {
  truncated = true;
  mremap = λ m n. some (m ++ zeros (n - length m));
  synced = true;
}

pub all_well-Succeeds : Succeeds all_well
all_well-Succeeds = record { truncates = refl; grows = λ m n h. refl; syncs = refl }

pub new_items-IsStorable : All IsStorable (item_a ∷ item_b ∷ [])
new_items-IsStorable = (
  record { key_bound = omega arith; blob_bound = omega arith },
  (record { key_bound = omega arith; blob_bound = omega arith }, tt),
)

abbrev pub new_loc : Location
new_loc = record { key = 5; off = 15; len = 2 }

collect-push_example :
    (l' : Log) × (push 1 log_of_one (item_a ∷ item_b ∷ []) all_well ≡ ok (l', new_loc, none))
    × ((c : Bool)
        → collect 3 l' (at new_loc c)
          ≡ ok (item_a ∷ item_b ∷ [], past_all (at new_loc c) (item_a ∷ item_b ∷ [])))
    × HasBatch l' 15 (item_a ∷ item_b ∷ [])
    × ((off : ℕ) (old : List Item) → HasBatch log_of_one off old → HasBatch l' off old)
unfolding big_endian
collect-push_example =
    collect-push 1 log_of_one item_a (item_b ∷ []) all_well used_bytes 40 (omega arith)
      log_of_one-Holds (omega arith) (omega arith) all_well-Succeeds new_items-IsStorable

push-encode_example :
    (k : ℕ) × (push 1 log_of_one (item_a ∷ item_b ∷ []) all_well
      ≡ ok (
        record log_of_one {
          mmap = (used_bytes ++ encode_all (item_a ∷ item_b ∷ [])) ++ zeros k;
          size = 15 + batch_size (item_a ∷ item_b ∷ []);
          is_empty = false;
        },
        record { key = 5; off = 15; len = 2 },
        none,
      ))
unfolding big_endian
push-encode_example =
    push-encode 1 log_of_one item_a (item_b ∷ []) all_well used_bytes 40 (omega arith)
      log_of_one-Holds (omega arith) (omega arith) all_well-Succeeds

write_item-encode_example :
    write_item log_of_one item_a
    ≡ ok (record log_of_one { mmap = (used_bytes ++ encode item_a) ++ zeros 24; size = 31 })
unfolding big_endian
write_item-encode_example =
    write_item-encode log_of_one item_a used_bytes 40 24 log_of_one-Holds refl

abbrev pub reopened : OpenAnswers
reopened = record { opened = true; statted = true; truncated = false; mapped = true }

open_log-Holds_example :
    open_log 4096 log_of_one.mmap true reopened
    ≡ ok (
        opened_log
          (record { mmap = log_of_one.mmap; size = 15; sync_on_write = true; is_empty = false }))
unfolding big_endian
open_log-Holds_example =
    open_log-Holds 4096 log_of_one [] old_item [] 40 true reopened log_of_one-Holds refl

old_item-IsStorable : IsStorable old_item
old_item-IsStorable = record { key_bound = omega arith; blob_bound = omega arith }

abbrev old_iter : Iter
old_iter = at (record { key = 3; off = 0; len = 1 }) false

old_iter-Before : Before log_of_one old_iter (old_item ∷ [])
unfolding at big_endian
old_iter-Before = record {
  batch = record {
    front = [];
    back = zeros 40;
    shape = refl;
    offset = refl;
    inside = omega arith;
    small = omega arith;
    storable = (old_item-IsStorable, tt);
  };
  counted = refl;
  live = refl;
}

read_item_at-encode_example : read_item_at log_of_one 0 no_item ≡ ok (old_item, none)
unfolding big_endian
read_item_at-encode_example =
    read_item_at-encode log_of_one old_item no_item [] (zeros 40) 0 refl refl old_item-IsStorable
      (omega arith) (omega arith)

find_next_item-bounds_example : (r : ℕ) × (find_next_item log_of_one 0 ≡ ok r) × (0 < r) × (r ≤ 15)
unfolding big_endian
find_next_item-bounds_example =
    find_next_item-bounds log_of_one (omega arith) 0 (omega arith) (omega arith)
