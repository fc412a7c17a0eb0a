-- ===== src/Vlog/Iter/Walk.antt =====
-- Iteration over a batch that lies intact in the log.
use mathlib.Core.List.{append_assoc}
use timeq.Base.{
  ℕ, zero, suc, ◌+◌, ◌-◌, ◌≤◌, ◌<◌, ◌≡◌, ◌∙◌, true, false, List, [], ◌∷◌, ◌++◌, none, length, arith,
  ok, ◌>>=◌, ltb, leb, gt→leb, ◌==◌, ◌&&◌, ◌||◌,
}
use timeq.Base.Words.{add64, sub64}
use timeq.Item.{Item, storage_size}
use timeq.Item.Sizes.{entry_size, batch_size, storage_size_lem}
use timeq.Vlog.{Log, read_item_at}
use timeq.Vlog.Entry.{encode_all, read_item_at-encode}
use timeq.Vlog.Batch.{HasBatch, HasBatch-tail}
use timeq.Vlog.Iter.{Iter, read_loop, advance, next, collect}

-- The iterator stands before the items `items` in the log, of which the batch has as many left.
pub record Before (l : Log) (li : Iter) (items : List Item) : Type 0 where
  pub batch : HasBatch l li.curr_off items
  pub open batch use *
  pub counted : li.curr_len ≡ length items
  pub live : li.exhausted ≡ false

-- The iterator after it has read `it`.
abbrev pub past : Iter → Item → Iter
past li it = record li {
  item = it;
  prev_off = li.curr_off;
  prev_len = li.curr_len;
  curr_off = li.curr_off + entry_size it;
  curr_len = li.curr_len - 1;
}

read_loop-read :
    (fuel : ℕ) (l : Log) (li : Iter) (it : Item)
    → 0 < fuel
    → read_item_at l li.curr_off li.item ≡ ok (it, none)
    → read_loop fuel l li ≡ ok (record li { item = it }, true)
unfolding read_loop
read_loop-read zero l li it h e = absurd (omega arith)
read_loop-read (suc fuel) l li it h e = rw e

few : (items : List Item) → length items ≤ batch_size items
few [] = omega arith
few (it ∷ items) = omega (arith, few items)

module _ (l : Log) (li : Iter) (it : Item) (items : List Item) (b : Before l li (it ∷ items)) where
  -- Next reads the first of the items that are left.
  pub next-past : next l li ≡ ok (past li it, true)
  unfolding next advance
  next-past =
      rw (live, inside_log, reading, ◌>>=◌)
        (λ i. ok (record (past li it) { curr_off = offset i; curr_len = counted i }, true))
    where
      live : (li.curr_len == 0 || li.exhausted) ≡ false
      live = ground (arith, b.counted, b.live)

      inside_log : (ltb 0 (length l.mmap) && leb l.size li.curr_off) ≡ false
      inside_log = ground (arith, gt→leb l.size li.curr_off (omega (arith, b.offset, b.inside)))

      read : read_item_at l li.curr_off li.item ≡ ok (it, none)
      read =
          read_item_at-encode l it li.item b.front (encode_all items ++ b.back) li.curr_off
            (b.shape ∙ simp append_assoc) b.offset b.storable.0 (omega (arith, b.offset, b.inside))
            b.small

      reading : read_loop (l.size + 1) l li ≡ ok (record li { item = it }, true)
      reading = read_loop-read (l.size + 1) l li it (omega arith) read

      offset : add64 li.curr_off (storage_size it) ≡ li.curr_off + entry_size it
      offset =
          rw (storage_size_lem it (omega (arith, b.inside, b.small)))
            (omega (arith, b.offset, b.inside, b.small))

      counted : sub64 li.curr_len 1 ≡ li.curr_len - 1
      counted = omega (arith, b.counted, few (it ∷ items), b.inside, b.small)

  pub past-Before : Before l (past li it) items
  past-Before = record {
    batch = HasBatch-tail l li.curr_off it items b.batch;
    counted = omega (arith, b.counted);
    live = b.live;
  }

-- After the last item Next stops, without an error.
pub next-done :
    (l : Log) (li : Iter) → Before l li [] → next l li ≡ ok (record li { exhausted = true }, false)
unfolding next
next-done l li b = rw b.counted

-- The state of the iterator after it has read the items.
abbrev pub past_all : Iter → List Item → Iter
past_all li [] = record li { exhausted = true }
past_all li (it ∷ items) = past_all (past li it) items

-- The loop over an iterator that stands before a batch that lies intact in the log yields the
-- items of the batch in order, and then stops without an error.
pub collect-Before :
    (fuel : ℕ) (l : Log) (li : Iter) (items : List Item)
    → Before l li items
    → length items < fuel
    → collect fuel l li ≡ ok (items, past_all li items)
unfolding collect
collect-Before zero l li items b h = absurd (omega arith)
collect-Before (suc fuel) l li [] b h = rw (next-done l li b)
collect-Before (suc fuel) l li (it ∷ items) b h = rw (
  next-past l li it items b,
  ◌>>=◌,
  collect-Before fuel l (past li it) items (past-Before l li it items b) (omega arith),
)
