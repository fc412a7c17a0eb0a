-- ===== src/Bucket/Queue.antt =====
-- A fork of a bucket (bucket.go) as a priority queue: the items that its index leads to in the
-- value log. The abstract view forgets in which batches they lie, and their order.
pub mod Entries
pub mod Reads
pub mod Pushes
use mathlib.Core.Logic.{∥∥₁_prop, ∥∥₁_elim, ∥∥₁_map}
use mathlib.Core.List.{Perm, append_assoc, map-append, perm_append_comm}
use mathlib.Core.List.Perm
use native.Mathlib.Bridge.{le_prop}
use timeq.Base.{
  ℕ, ◌+◌, ◌^◌, ◌<◌, ◌≡◌, refl, sym, ◌∙◌, ap, subst, true, List, [], ◌∷◌, ◌++◌, map, Option, none,
  some, length, length-append, arith, All, All-append, All-append_inv, All-map, Run, ok, ◌>>=◌, ◌⊎◌,
  inl, inr,
}
use timeq.Base.Perms.{All-perm, lift_perm, gather-perm, gather-append, perm_length}
use timeq.Base.Words.{u64}
use timeq.Item.{Item, Location}
use timeq.Btree.{OrderedMap, IsOrderedMap}
use timeq.Vlog.{Log}
use timeq.Vlog.Iter.{Iter}
use timeq.Vlog.Iter.Ahead.{IsGood}
use timeq.Index.{Index}
use timeq.Index.Stable.{SameOrder, at_key, SameOrder-Perm}
use timeq.Index.Locations.{IsValid, locations, total_len}
use timeq.Index.Codec.{WriteAnswer, written}
use native.Mathlib.Nat.{ℕ_set}
use timeq.Bucket.{Bucket, BucketIndex, ForkName, idx_for_fork}
use timeq.Bucket.Forks.{len}
use timeq.Bucket.Peek.{Peeked, peek}
use timeq.Bucket.Merge.{Batch, IsBacked, all_items, all_left, first_keys, batch_keys}
use timeq.Bucket.Merge.Picks.{Opened}
use timeq.Bucket.Merge.Lowest.{HasLowest, Leaves, peek-Leaves}
use timeq.Bucket.Merge.Rests.{
  rest_batches, rest_batches-IsBacked, map-rest_batches, all_items-rest_batches, good-IsPoppable,
}
use timeq.Bucket.Pop.{pop_sync}
use timeq.Bucket.PopJournal.{IsPoppable, IsSound}
use timeq.Bucket.PopRests.{pop_sync-SameOrder, loc_keys, all_current}

abbrev pub batch_locs : List Batch → List Location
batch_locs bs = map (λ (b : Batch). b.0) bs

loc_keys-batch_locs : (bs : List Batch) → loc_keys (batch_locs bs) ≡ batch_keys bs
loc_keys-batch_locs [] = refl
loc_keys-batch_locs (b ∷ bs) = ap (◌∷◌ b.0.key) (loc_keys-batch_locs bs)

-- The keys of sorted batches that lie in the log are keys of items.
batch_keys-bound :
    (l : Log) (bs : List Batch) → All (IsBacked l) bs → All (λ k. k < 2 ^ 64) (batch_keys bs)
batch_keys-bound l [] h = tt
batch_keys-bound l ((loc, []) ∷ bs) h = absurd (h.0.headed)
batch_keys-bound l ((loc, it ∷ items) ∷ bs) h =
    (omega (arith, h.0.headed, h.0.batch.storable.0.key_bound), batch_keys-bound l bs h.1)

all-IsPoppable :
    (l : Log) (is : List Iter)
    → All (λ k. k < 2 ^ 64) (first_keys is)
    → All (IsGood l) is
    → All IsPoppable is
all-IsPoppable l [] h g = tt
all-IsPoppable l (li ∷ is) h g = (good-IsPoppable l li h.0 g.0, all-IsPoppable l is h.1 g.1)

module _ (M : OrderedMap (List Location)) where
  -- The batches of the index, sorted and intact in the log, hold exactly the items.
  abbrev pub HeldBy : Log → Index M → List Item → List Batch → Type 0
  HeldBy l idx items bs =
      (batch_locs bs ≡ locations M idx) × All (IsBacked l) bs × Perm (all_items bs) items

  abbrev pub IsHeld : Log → Index M → List Item → Type 0
  IsHeld l idx items = ∥ ((bs : List Batch) × HeldBy l idx items bs) ∥₁

  -- Batches in another order than that of the index.
  pub IsHeld-by :
      (l : Log) (idx : Index M) (bs : List Batch)
      → Perm (locations M idx) (batch_locs bs)
      → All (IsBacked l) bs
      → IsHeld l idx (all_items bs)
  IsHeld-by l idx bs p k =
      ∥∥₁_map (lift_perm (λ (b : Batch). b.0) (IsBacked l) bs p)
        (λ (cs, same, perm, all). (cs, (same, all k, gather-perm (λ (b : Batch). b.1) perm)))

  pub IsHeld-perm :
      (l : Log) (idx : Index M) (xs ys : List Item) → Perm xs ys → IsHeld l idx xs → IsHeld l idx ys
  IsHeld-perm l idx xs ys p h = ∥∥₁_map h (λ (bs, (same, k, q)). (bs, (same, k, Perm.trans q p)))

  -- The fork is there, its index valid and its log a journal of it, and it holds the items.
  pub record IsQueue (laws : IsOrderedMap M) (b : Bucket M) (fork : ForkName) (items : List Item)
      : Type 0 where
    pub idx : BucketIndex M
    pub found : idx_for_fork M b fork ≡ some idx
    pub sound : IsSound M laws idx
    pub held : IsHeld b.log idx.mem items

  backed_total :
      (l : Log) (bs : List Batch)
      → All (IsBacked l) bs
      → total_len (batch_locs bs) ≡ length (all_items bs)
  backed_total l [] k = refl
  backed_total l (b ∷ bs) k =
      omega (arith, k.0.counted, backed_total l bs k.1, length-append b.1 (all_items bs))

  -- Len of a fork that holds some items is their number, in 64 bits.
  pub len-IsQueue :
      (laws : IsOrderedMap M) (b : Bucket M) (fork : ForkName) (items : List Item)
      → IsQueue laws b fork items
      → len M b fork ≡ u64 (length items)
  unfolding len
  len-IsQueue laws b fork items q = ∥∥₁_elim q.held (ℕ_set _ _) (λ (bs, (same, k, p)).
      rw (len, q.found)
        (q.sound.valid.counted
          ∙ ap (λ ls. u64 (total_len ls)) (sym same)
          ∙ ap u64 (backed_total b.log bs k ∙ perm_length p)))

  module _ (laws : IsOrderedMap M) (b : Bucket M) (idx : BucketIndex M) (bs : List Batch)
      (rest : List Item) (p : Peeked M) where
    -- popSync of the iterators of a peek leaves exactly the items that the peek did not take.
    pub pop_sync-IsHeld :
        (s : IsSound M laws idx)
        → batch_locs bs ≡ locations M idx.mem
        → All (IsBacked b.log) bs
        → (lv : Leaves M b bs rest p) → (os : ℕ → WriteAnswer) → ((n : ℕ) → os n ≡ written)
        → (idx' : BucketIndex M) × (pop_sync M idx lv.iters os true ≡ ok (idx', none))
          × IsSound M laws idx'
          × IsHeld b.log idx'.mem rest
    pop_sync-IsHeld s same k lv os w =
        let o = lv.parts in
        let parts =
          All-append_inv (IsBacked b.log) o.opened lv.to_come
            (subst (All (IsBacked b.log)) o.split k) in
        let bounds =
          All-perm (λ j. j < 2 ^ 64) (λ j. le_prop) (Perm.symm o.keys)
            (batch_keys-bound b.log o.opened parts.0) in
        let start : SameOrder (locations M idx.mem) (batch_locs o.opened ++ batch_locs lv.to_come) =
          λ j. ap (at_key j) (
            sym same
            ∙ ap batch_locs o.split
            ∙ map-append (λ (c : Batch). c.0) o.opened lv.to_come) in
        let (idx', run, s', order) =
          pop_sync-SameOrder M laws idx lv.iters os (batch_locs o.opened) (batch_locs lv.to_come) w
            s (all-IsPoppable b.log lv.iters bounds o.good) start
            (subst (Perm (first_keys lv.iters)) (sym (loc_keys-batch_locs o.opened)) o.keys) in
        let after : List Batch = lv.to_come ++ rest_batches b.log lv.iters in
        let listed : batch_locs lv.to_come ++ all_current lv.iters ≡ batch_locs after =
          ap (λ ls. batch_locs lv.to_come ++ ls) (sym (map-rest_batches b.log lv.iters))
          ∙ sym (map-append (λ (c : Batch). c.0) lv.to_come (rest_batches b.log lv.iters)) in
        let items : all_items after ≡ all_items lv.to_come ++ all_left b.log lv.iters =
          gather-append (λ (c : Batch). c.1) lv.to_come (rest_batches b.log lv.iters)
          ∙ ap (λ xs. all_items lv.to_come ++ xs) (all_items-rest_batches b.log lv.iters) in
        (
          idx',
          run,
          s',
          IsHeld-perm b.log idx'.mem (all_items after) rest
              (subst (λ xs. Perm xs rest) (sym items)
                (subst (Perm (all_items lv.to_come ++ all_left b.log lv.iters)) (sym lv.left_over)
                  (perm_append_comm (all_items lv.to_come) (all_left b.log lv.iters))))
              (IsHeld-by b.log idx'.mem after
                (subst (Perm (locations M idx'.mem)) listed (
                  SameOrder-Perm (locations M idx'.mem)
                    (batch_locs lv.to_come ++ all_current lv.iters) order))
                (All-append (IsBacked b.log) lv.to_come (rest_batches b.log lv.iters) parts.1
                  (rest_batches-IsBacked b.log lv.iters o.good))),
        )
