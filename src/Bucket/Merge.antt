-- ===== src/Bucket/Merge.antt =====
-- peek of bucket.go as a merge: what its loop keeps.
pub mod Rounds
pub mod Picks
pub mod Lowest
pub mod Rests
use mathlib.Core.List.{Perm, perm_append_comm, append_assoc, append-nil}
use mathlib.Core.List.Perm
use native.Mathlib.Bridge.{le_prop}
use timeq.Base.{
  ℕ, zero, suc, ◌+◌, ◌≤◌, ◌<◌, ◌≡◌, ◌≢◌, refl, sym, ◌∙◌, ap, subst, subst₂, Bool, true, false, not,
  List, [], ◌∷◌, ◌++◌, map, Option, none, some, length, length-append, arith, Run, ok, ◌>>=◌, All,
  All-append, All-append_inv, if◌then◌else◌, Bool-cases, inl, inr, ◌||◌, ◌^◌, ◌==◌,
}
use timeq.Base.Perms.{gather, gather-append, gather-perm, All-perm, perm_length}
use timeq.Base.Words.{rank, le_i64}
use timeq.Item.{Item, Location}
use timeq.Item.Order.{Below, Ordered, Below-perm}
use timeq.Btree.{OrderedMap}
use timeq.Vlog.{Log}
use timeq.Vlog.Batch.{HasBatch}
use timeq.Vlog.Iter.{Iter, at}
use timeq.Vlog.Iter
use timeq.Vlog.Iter.Walk.{past}
use timeq.Vlog.Iter.Ahead.{left, IsGood, MovesOn, next-IsGood, next-at, left-Below, left-live}
use timeq.Vlog.Heap
use timeq.Vlog.Heap.{parent}
use timeq.Vlog.Heap.Order.{weight, weight_at, IsHeap}
use timeq.Vlog.Heap.Swaps.{Swaps, Swaps-perm, Swaps-All, root-All, weight_at-root}
use timeq.Vlog.Heap.Sift.{fix_root-Swaps, push-Swaps}
use timeq.Index.{LocIter, next_loc, value}
use timeq.Index.Iteration.{Stands, next_loc-some, next_loc-none}
use timeq.Bucket.{Bucket, log_at}
use timeq.Options.{error_mode_abort}
use timeq.Bucket.Peek.{Added, add_iter, added, after_next, needs_next, Peeked}

-- A location and the items of its batch.
abbrev pub Batch : Type 0
Batch = Location × List Item

abbrev pub Headed : Location → List Item → Type 0
Headed loc [] = ⊥
Headed loc (it ∷ items) = it.key ≡ loc.key

-- The batch is sorted and lies intact in the log; the key of the location is its first key.
pub record IsBacked (l : Log) (b : Batch) : Type 0 where
  pub batch : HasBatch l b.0.off b.1
  pub counted : b.0.len ≡ length b.1
  pub few : length b.1 < 2 ^ 32
  pub ordered : Ordered b.1
  pub headed : Headed b.0 b.1

abbrev pub NotAfter : ℕ → List Batch → Type 0
NotAfter w [] = Unit {0}
NotAfter w ((loc, items) ∷ bs) = w ≤ rank loc.key

-- The keys of the locations never go down.
abbrev pub Rising : List Batch → Type 0
Rising [] = Unit {0}
Rising ((loc, items) ∷ bs) = NotAfter (rank loc.key) bs × Rising bs

abbrev pub all_items : List Batch → List Item
all_items bs = gather (λ (b : Batch). b.1) bs

abbrev pub all_left : Log → List Iter → List Item
all_left l is = gather (left l) is

-- The keys of the locations that iterators started at, and those of batches.
abbrev pub first_keys : List Iter → List ℕ
first_keys is = gather (λ (li : Iter). li.first_key ∷ []) is

abbrev pub batch_keys : List Batch → List ℕ
batch_keys bs = map (λ (b : Batch). b.0.key) bs

Headed-Below :
    (x : Item) (loc : Location) (items : List Item)
    → rank x.key ≤ rank loc.key
    → Headed loc items
    → Ordered items
    → Below x items
Headed-Below x loc [] h p o = tt
Headed-Below x loc (it ∷ items) h p o = (omega arith, lower items o.0)
  where
    lower : (ys : List Item) → Below it ys → Below x ys
    lower [] b = tt
    lower (y ∷ ys) b = (omega (arith, b.0), lower ys b.1)

pub NotAfter-mono : (v w : ℕ) (bs : List Batch) → v ≤ w → NotAfter w bs → NotAfter v bs
NotAfter-mono v w [] h n = tt
NotAfter-mono v w ((loc, items) ∷ bs) h n = omega arith

-- What is not above the first location is not above any item of the batches.
pub Below-ahead :
    (l : Log) (x : Item) (bs : List Batch)
    → NotAfter (rank x.key) bs
    → Rising bs
    → All (IsBacked l) bs
    → Below x (all_items bs)
Below-ahead l x [] n r k = tt
Below-ahead l x ((loc, items) ∷ bs) n r k =
    All-append (λ y. rank x.key ≤ rank y.key) items (all_items bs)
      (Headed-Below x loc items n k.0.headed k.0.ordered)
      (Below-ahead l x bs (NotAfter-mono (rank x.key) (rank loc.key) bs n r.0) r.1 k.1)

module _ (M : OrderedMap (List Location)) (b : Bucket M) where
  -- The locations to come, as the loop's variables show them.
  abbrev pub Coming : LocIter M → Bool → List Batch → Type 0
  Coming locs ex [] = ex ≡ true
  Coming locs ex ((loc, items) ∷ bs) =
      (ex ≡ false) × Stands M locs loc (map (λ (c : Batch). c.0) bs)

  -- The loop's invariant; `ahead` are the batches whose locations are to come.
  pub record Merging (is : List Iter) (locs : LocIter M) (ex : Bool) (ahead : List Batch)
      : Type 0 where
    pub heap : IsHeap is
    pub good : All (IsGood b.log) is
    pub some_iters : 0 < length is
    pub coming : Coming locs ex ahead
    pub backed : All (IsBacked b.log) ahead
    pub rising : Rising ahead
    pub root_first : NotAfter (weight_at is 0) ahead

  moved_locs :
      (locs : LocIter M) (loc : Location) (bs : List Batch)
      → Stands M locs loc (map (λ (c : Batch). c.0) bs)
      → Coming ((next_loc M locs).0) (not ((next_loc M locs).1)) bs
  moved_locs locs loc [] s = ap (λ r. not r.1) (next_loc-none M locs s.filled s.ahead)
  moved_locs locs loc ((loc', items) ∷ bs) s =
      let (it', moved, s') =
        next_loc-some M locs loc' (map (λ (c : Batch). c.0) bs) s.filled s.ahead in
      (
        ap (λ r. not r.1) moved,
        subst (λ it. Stands M it loc' (map (λ (c : Batch). c.0) bs)) (sym (ap (λ r. r.0) moved)) s',
      )

  -- addIter on a heap takes the next batch into it.
  pub add_iter-Merging :
      (is : List Iter) (locs : LocIter M) (loc : Location) (items : List Item) (bs : List Batch)
      → IsHeap is
      → All (IsGood b.log) is
      → Stands M locs loc (map (λ (c : Batch). c.0) bs)
      → IsBacked b.log (loc, items)
      → All (IsBacked b.log) bs
      → Rising ((loc, items) ∷ bs)
      → (r : List Iter) × (locs' : LocIter M) × (ex : Bool) × (add_iter M b is locs
          ≡ ok (record { iters = r; locs = locs'; index_exhausted = ex; err = none }))
        × Merging r locs' ex bs
        × Perm (all_left b.log r) (all_left b.log is ++ items)
        × Perm (first_keys r) (first_keys is ++ (loc.key ∷ []))
  unfolding add_iter at
  add_iter-Merging is locs loc [] bs h g s k ks up = absurd (k.headed)
  add_iter-Merging is locs loc (it ∷ items) bs h g s k ks up =
      let c : Bool = not (b.error_mode == error_mode_abort) in
      let (first, good, same, key) =
        next-at b.log loc c it items k.batch k.counted k.ordered k.few in
      let li : Iter = past (at loc c) it in
      let (r, pushed, heap, sw) = push-Swaps is li h in
      let light : weight_at r 0 ≤ weight li =
        (All-append_inv (λ (li : Iter). weight_at r 0 ≤ weight li) is (li ∷ [])
          (All-perm (λ (li : Iter). weight_at r 0 ≤ weight li) (λ _. le_prop) (Swaps-perm sw)
            (root-All r heap))).1.0 in
      let listed : all_left b.log (is ++ (li ∷ [])) ≡ all_left b.log is ++ (it ∷ items) =
        gather-append (left b.log) is (li ∷ [])
        ∙ ap (λ xs. all_left b.log is ++ xs) (append-nil (left b.log li) ∙ same) in
      (
        r,
        (next_loc M locs).0,
        not ((next_loc M locs).1),
        ap (λ v. Iter.next b.log (at v c) >>= λ n. added M is locs n) s.on
            ∙ ap (λ n. n >>= λ n. added M is locs n) first
            ∙ ap
                (λ q. q >>= λ is'. ok (record {
                  iters = is';
                  locs = (next_loc M locs).0;
                  index_exhausted = not ((next_loc M locs).1);
                  err = none;
                }))
                pushed,
        record {
          heap = heap;
          good = Swaps-All (IsGood b.log) sw (All-append (IsGood b.log) is (li ∷ []) g (good, tt));
          some_iters = omega (arith, perm_length (Swaps-perm sw), length-append is (li ∷ []));
          coming = moved_locs locs loc bs s;
          backed = ks;
          rising = up.1;
          root_first =
              NotAfter-mono (weight_at r 0) (rank loc.key) bs (omega (arith, light, k.headed)) up.0;
        },
        subst (Perm (all_left b.log r)) listed (gather-perm (left b.log) (Swaps-perm sw)),
        subst (Perm (first_keys r))
            (gather-append (λ (li : Iter). li.first_key ∷ []) is (li ∷ [])
              ∙ ap (λ k. first_keys is ++ (k ∷ [])) key)
            (gather-perm (λ (li : Iter). li.first_key ∷ []) (Swaps-perm sw)),
      )
