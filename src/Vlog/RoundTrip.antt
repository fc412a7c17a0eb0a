-- ===== src/Vlog/RoundTrip.antt =====
-- Push of vlog/vlog.go followed by the iteration over the location that it returned.
use timeq.Base.{
  ℕ, ◌+◌, ◌*◌, ◌^◌, ◌<◌, ◌≡◌, refl, Bool, false, List, ◌∷◌, ◌++◌, none, length, length-append,
  arith, All, ok,
}
use timeq.Base.Bytes.{zeros}
use timeq.Item.{Item, Location}
use timeq.Item.Sizes.{batch_size}
use timeq.Vlog.{Log, PushAnswers, push}
use timeq.Vlog.Entry.{IsStorable, Holds, encode_all}
use timeq.Vlog.Batch.{HasBatch, HasBatch-appended, HasBatch-kept}
use timeq.Vlog.Push.{Succeeds, push-encode, length-encode_all}
use timeq.Vlog.Iter.{at, collect}
use timeq.Vlog.Iter.Walk.{Before, past_all, collect-Before}

-- An iterator at the location of a batch.
pub at-Before :
    (l : Log) (loc : Location) (c : Bool) (items : List Item)
    → HasBatch l loc.off items
    → loc.len ≡ length items
    → Before l (at loc c) items
unfolding at
at-Before l loc c items b e = record { batch = b; counted = e; live = refl }

-- The location that Push returns: the key of the first item, the old end of the log, the number of items.
abbrev pub batch_location : Log → Item → List Item → Location
batch_location l it items = record { key = it.key; off = l.size; len = length (it ∷ items) }

module _ (p : ℕ) (l : Log) (it : Item) (items : List Item) (os : PushAnswers) (used : List ℕ)
    (n : ℕ) (hp : 0 < p) (h : Holds l used n)
    (fits : l.size + batch_size (it ∷ items) + 128 * p < 2 ^ 63) (small : length l.mmap < 2 ^ 63)
    (yes_os : Succeeds os) where
  -- If all calls succeed, the sizes stay below 2^63 and the items fit an entry, Push of a nonempty
  -- batch on a log whose unused bytes are zeros returns no error and the location of the batch.
  -- The batch lies intact in the log, the loop over an iterator at that location yields the pushed
  -- items in order, and every batch that was in the log is still there.
  pub collect-push :
      All IsStorable (it ∷ items)
      → (l' : Log) × (push p l (it ∷ items) os ≡ ok (l', batch_location l it items, none))
        × ((c : Bool)
            → collect (length (it ∷ items) + 1) l' (at (batch_location l it items) c)
              ≡ ok (it ∷ items, past_all (at (batch_location l it items) c) (it ∷ items)))
        × HasBatch l' l.size (it ∷ items)
        × ((off : ℕ) (old : List Item) → HasBatch l off old → HasBatch l' off old)
  collect-push st =
      let (k, run) = push-encode p l it items os used n hp h fits small yes_os in
      let batch : List Item = it ∷ items in
      let l' : Log = record l {
        mmap = (used ++ encode_all batch) ++ zeros k;
        size = l.size + batch_size batch;
        is_empty = false;
      } in
      let loc = batch_location l it items in
      let h' : Holds l' (used ++ encode_all batch) k = record {
        shape = refl;
        sized =
            omega (arith, h.sized, length-append used (encode_all batch), length-encode_all batch);
      } in
      let bounded : l'.size < 2 ^ 63 = omega (arith, fits) in
      let appended = HasBatch-appended l' used batch k l.size h' h.sized bounded st in
      (
        l',
        run,
        λ c.
            collect-Before (length batch + 1) l' (at loc c) batch
              (at-Before l' loc c batch appended refl) (omega arith),
        appended,
        λ off old. HasBatch-kept l l' used (encode_all batch) n k off old h h' bounded,
      )
