-- ===== src/Bucket/Queue/Reads.antt =====
-- Read of bucket.go on a fork as a priority queue.
use mathlib.Core.Logic.{∥∥₁_map}
use mathlib.Core.List.{Perm}
use mathlib.Core.List.Perm
use timeq.Base.{
  ℕ, suc, ◌≡◌, refl, sym, ◌∙◌, ap, subst, true, false, List, [], Option, none, some, Run, ok, ◌>>=◌,
  ◌⊎◌, inl, inr,
}
use timeq.Item.{Item, Location}
use timeq.Btree.{OrderedMap, IsOrderedMap}
use timeq.Vlog.Iter.{Iter}
use timeq.Index.Codec.{WriteAnswer, written}
use timeq.Bucket.{Bucket, BucketIndex, BucketError, ForkName, name_eq, idx_for_fork, put_index}
use timeq.Bucket.Peek.{Peeked, peek}
use timeq.Bucket.Merge.{Batch, all_items}
use timeq.Bucket.Merge.Lowest.{HasLowest, peek-Leaves}
use timeq.Bucket.Pop.{Callback, read, finish_read, pop_read, pop_sync, read_op_pop, popped, beside}
use timeq.Bucket.PopJournal.{IsSound}
use timeq.Bucket.Queue.{IsQueue, IsHeld, HeldBy, pop_sync-IsHeld}
use timeq.Bucket.Queue.Entries.{find_index-put_index, put_index-others}

module _ (M : OrderedMap (List Location)) where
  abbrev lowest_of :
      (b : Bucket M) (n : ℕ) (xs ys : List Item) (p : Peeked M)
      → Perm xs ys
      → HasLowest M b n xs p
      → HasLowest M b n ys p
  lowest_of b n xs ys p e h = record {
    rest = h.rest;
    succeeds = h.succeeds;
    counted = h.counted;
    whole = Perm.trans h.whole e;
    ordered = h.ordered;
    lowest = h.lowest;
    enough = h.enough;
    most = h.most;
  }

  unchanged :
      (idx idx' : BucketIndex M) (os : ℕ → WriteAnswer)
      → pop_sync M idx [] os true ≡ ok (idx', none)
      → idx ≡ idx'
  unfolding pop_sync
  unchanged idx idx' os h = cc

module _ (M : OrderedMap (List Location)) (laws : IsOrderedMap M) {X : Type 0} where
  -- What Read does: the callback gets the lowest items, and a pop of them leaves the others.
  pub record ReadsLowest (b : Bucket M) (fork : ForkName) (items : List Item) (n : ℕ)
      (fn : Callback M X) (x : X) (os : ℕ → WriteAnswer) : Type 0 where
    pub peeked : Peeked M
    pub lowest : HasLowest M b n items peeked
    pub calls :
        read M b n fork fn x os true
        ≡ (fn b x peeked.items >>= λ r. finish_read M fork peeked.iters os true r)
    pub after : Bucket M
    pub pops :
        (y : X)
        → finish_read M fork peeked.iters os true (b, y, inl read_op_pop) ≡ ok (after, y, none)
    pub log_kept : after.log ≡ b.log
    pub leaves : IsQueue M laws after fork lowest.rest
    pub others :
        (other : ForkName)
        → name_eq fork other ≡ false
        → idx_for_fork M after other ≡ idx_for_fork M b other

  module _ (b : Bucket M) (fork : ForkName) (items : List Item) (n : ℕ) (fn : Callback M X) (x : X)
      (os : ℕ → WriteAnswer) (w : (k : ℕ) → os k ≡ written) (q : IsQueue M laws b fork items) where
    calls_lem :
        (p : Peeked M)
        → peek M b (suc n) [] q.idx.mem ≡ ok p
        → p.err ≡ none
        → read M b (suc n) fork fn x os true
          ≡ (fn b x p.items >>= λ r. finish_read M fork p.iters os true r)
    unfolding read
    calls_lem p run fine =
        rw (read, q.found) (ap (λ r. r >>= λ p. stops p p.err) run ∙ ap (stops p) fine)
      where
        stops : Peeked M → Option BucketError → Run (Bucket M × X × Option BucketError)
        stops p (some e) = ok (b, x, some e)
        stops p none = fn b x p.items >>= λ r. finish_read M fork p.iters os true r

    -- The pop after the callback, of the iterators that the peek left.
    pops_lem :
        (rest : List Item) (its : Option (List Iter)) (iters : List Iter) (idx' : BucketIndex M)
        → (its ≡ some iters) ⊎ ((its ≡ none) × (iters ≡ []))
        → pop_sync M q.idx iters os true ≡ ok (idx', none)
        → IsSound M laws idx'
        → IsHeld M b.log idx'.mem rest
        → (after : Bucket M) × (pop_read M b fork its os true ≡ ok (after, none))
          × (after.log ≡ b.log)
          × IsQueue M laws after fork rest
          × ((other : ForkName)
              → name_eq fork other ≡ false
              → idx_for_fork M after other ≡ idx_for_fork M b other)
    unfolding pop_read
    pops_lem rest its iters idx' (inl e) done s' held = (
      record b { indexes = put_index M b.indexes fork idx' },
      ap (λ o. pop_read M b fork o os true) e
          ∙ rw (pop_read, q.found) (ap (λ r. r >>= λ r. ok (popped M b fork r)) done),
      refl,
      record {
        idx = idx';
        found = find_index-put_index M b.indexes fork q.idx idx' q.found;
        sound = s';
        held = held;
      },
      λ other h. put_index-others M b.indexes fork other idx' h,
    )
    pops_lem rest its iters idx' (inr (e, empty)) done s' held = (
      b,
      ap (λ o. pop_read M b fork o os true) e,
      refl,
      record {
        idx = q.idx;
        found = q.found;
        sound = q.sound;
        held = subst (λ i. IsHeld M b.log i.mem rest) (sym kept) held;
      },
      λ other h. refl,
    )
      where
        kept : q.idx ≡ idx'
        kept = unchanged M q.idx idx' os (ap (λ is. pop_sync M q.idx is os true) (sym empty) ∙ done)

    reads_by :
        (bs : List Batch)
        → HeldBy M b.log q.idx.mem items bs
        → ReadsLowest b fork items (suc n) fn x os
    unfolding finish_read
    reads_by bs (same, k, e) =
        let (p, run, h, lv) = peek-Leaves M b q.idx.mem (suc n) bs q.sound.valid same k in
        let (idx', done, s', held) =
          pop_sync-IsHeld M laws b q.idx bs h.rest p q.sound same k lv os w in
        let (after, pops, log, queue, others) =
          pops_lem h.rest p.iters lv.iters idx' lv.held done s' held in
        record {
          peeked = p;
          lowest = lowest_of M b (suc n) (all_items bs) items p e h;
          calls = calls_lem p run h.succeeds;
          after = after;
          pops = λ y. ap (λ r. r >>= λ r. ok (beside M y r)) pops;
          log_kept = log;
          leaves = queue;
          others = others;
        }

    pub read-ReadsLowest : ∥ ReadsLowest b fork items (suc n) fn x os ∥₁
    read-ReadsLowest = ∥∥₁_map q.held (λ (bs, held). reads_by bs held)
