-- ===== src/Bucket/Merge/Lowest.antt =====
-- peek of bucket.go on an index whose batches lie in the log.
use mathlib.Core.List.{Perm}
use mathlib.Core.List.Perm
use timeq.Base.{
  ℕ, ◌+◌, ◌≤◌, ◌<◌, ◌≡◌, refl, sym, ◌∙◌, ap, subst, Bool, List, [], ◌∷◌, ◌++◌, map, none, some,
  length, arith, Run, ok, ◌>>=◌, All, if◌then◌else◌, ◌⊎◌, inl, inr,
}
use timeq.Base.Words.{rank}
use timeq.Item.{Item, Location}
use timeq.Item.Order.{Below, Ordered}
use timeq.Btree.{OrderedMap}
use timeq.Vlog.Iter.{Iter}
use timeq.Index.{Index, LocIter, loc_iter, next_loc}
use timeq.Index.Locations.{IsValid, locations}
use timeq.Index.Iteration.{next_loc-some, next_loc-none, loc_iter-NonEmpty, loc_iter-upcoming}
use timeq.Index.Rising.{First, RisingLocs, locations-RisingLocs}
use timeq.Bucket.{Bucket}
use timeq.Bucket.Peek.{Peeked, add_iter, peek_loop, peek_first, peek, recovered}
use timeq.Bucket.Merge.{
  Batch, IsBacked, NotAfter, Rising, all_items, all_left, first_keys, add_iter-Merging,
}
use timeq.Bucket.Merge.Rounds.{added_state}
use timeq.Bucket.Merge.Picks.{peek_loop-Picked, Opened, Opened-more}

NotAfter-First : (w : ℕ) (bs : List Batch) → First w (map (λ (c : Batch). c.0) bs) → NotAfter w bs
NotAfter-First w [] h = tt
NotAfter-First w ((loc, items) ∷ bs) h = h

Rising-RisingLocs : (bs : List Batch) → RisingLocs (map (λ (c : Batch). c.0) bs) → Rising bs
Rising-RisingLocs [] h = tt
Rising-RisingLocs ((loc, items) ∷ bs) h =
    (NotAfter-First (rank loc.key) bs h.0, Rising-RisingLocs bs h.1)

module _ (M : OrderedMap (List Location)) (b : Bucket M) where
  peek_first-loop :
      (n : ℕ) (is : List Iter) (locs : LocIter M) (ex : Bool)
      → 0 < length is
      → peek_first M b n [] (added_state M b is locs ex)
        ≡ peek_loop M b n (added_state M b is locs ex) [] 0
  unfolding peek_first
  peek_first-loop n [] locs ex h = absurd (omega arith)
  peek_first-loop n (li ∷ is) locs ex h = refl

  -- `p` holds the `n` lowest of the items, in order, or all of them.
  pub record HasLowest (n : ℕ) (items : List Item) (p : Peeked M) : Type 0 where
    pub rest : List Item
    pub succeeds : p.err ≡ none
    pub counted : p.npopped ≡ length p.items
    pub whole : Perm (p.items ++ rest) items
    pub ordered : Ordered p.items
    pub lowest : All (λ x. Below x rest) p.items
    pub enough : (length p.items ≡ n) ⊎ (rest ≡ [])
    pub most : length p.items ≤ n

  -- What of the batches `bs` is left when peek returns: the rests of the iterators that it opened,
  -- and the batches that it did not open. Without a batch there are no iterators.
  pub record Leaves (bs : List Batch) (rest : List Item) (p : Peeked M) : Type 0 where
    pub iters : List Iter
    pub to_come : List Batch
    pub held : (p.iters ≡ some iters) ⊎ ((p.iters ≡ none) × (iters ≡ []))
    pub parts : Opened M b [] bs iters to_come
    pub left_over : rest ≡ all_left b.log iters ++ all_items to_come

  peek_batches :
      (idx : Index M) (n : ℕ) (bs : List Batch)
      → IsValid M idx
      → map (λ (c : Batch). c.0) bs ≡ locations M idx
      → All (IsBacked b.log) bs
      → Rising bs
      → (p : Peeked M) × (peek M b n [] idx ≡ ok p)
        × (h : HasLowest n (all_items bs) p) × Leaves bs h.rest p
  unfolding peek
  peek_batches idx n [] v e k up = (
    record { iters = none; items = []; npopped = 0; err = none },
    ap (λ t. recovered M (if t then started else stops))
        (ap (λ r. r.1)
          (next_loc-none M (loc_iter M idx) (loc_iter-NonEmpty M idx v)
            (loc_iter-upcoming M idx ∙ sym e))),
    record {
      rest = [];
      succeeds = refl;
      counted = refl;
      whole = Perm.refl [];
      ordered = tt;
      lowest = tt;
      enough = inr refl;
      most = omega arith;
    },
    record {
      iters = [];
      to_come = [];
      held = inr (refl, refl);
      parts = record { good = tt; opened = []; split = refl; keys = Perm.refl [] };
      left_over = refl;
    },
  )
    where
      stops : Run (Peeked M)
      stops = ok (record { iters = none; items = []; npopped = 0; err = none })

      started : Run (Peeked M)
      started = add_iter M b [] ((next_loc M (loc_iter M idx)).0) >>= λ s. peek_first M b n [] s
  peek_batches idx n ((loc, items) ∷ bs) v e k up =
      let (it, moved, s) =
        next_loc-some M (loc_iter M idx) loc (map (λ (c : Batch). c.0) bs)
          (loc_iter-NonEmpty M idx v) (loc_iter-upcoming M idx ∙ sym e) in
      let (r, locs, ex, run, m, same, keys) =
        add_iter-Merging M b [] it loc items bs (λ c p q. absurd (omega (arith, q))) tt s k.0 k.1
          up in
      let (p, looped, picked) = peek_loop-Picked M b n r locs ex bs m [] 0 in
      let q : Peeked M = record {
        iters = some picked.iters;
        items = picked.taken;
        npopped = length picked.taken;
        err = none;
      } in
      let plus : 0 + length picked.taken ≡ length picked.taken = omega arith in
      let is_q : p ≡ q = picked.result ∙ (λ i. record {
        iters = some picked.iters;
        items = picked.taken;
        npopped = plus i;
        err = none;
      }) in
      (
        q,
        ap (λ t. recovered M (if t then started else stops)) (ap (λ r. r.1) moved)
            ∙ ap (λ it. recovered M (add_iter M b [] it >>= λ s. peek_first M b n [] s))
                (ap (λ r. r.0) moved)
            ∙ ap (λ q. recovered M (q >>= λ s. peek_first M b n [] s)) run
            ∙ ap (recovered M) (peek_first-loop n r locs ex m.some_iters ∙ looped ∙ ap ok is_q),
        record {
          rest = all_left b.log picked.iters ++ all_items picked.to_come;
          succeeds = refl;
          counted = refl;
          whole = Perm.trans picked.whole (Perm.append same (Perm.refl (all_items bs)));
          ordered = picked.ordered;
          lowest = picked.lowest;
          enough = picked.enough;
          most = picked.most;
        },
        record {
          iters = picked.iters;
          to_come = picked.to_come;
          held = inl refl;
          parts =
              Opened-more M b [] (first_keys r) ((loc, items) ∷ []) bs picked.iters picked.to_come
                keys picked.parts;
          left_over = refl;
        },
      )
    where
      stops : Run (Peeked M)
      stops = ok (record { iters = none; items = []; npopped = 0; err = none })

      started : Run (Peeked M)
      started = add_iter M b [] ((next_loc M (loc_iter M idx)).0) >>= λ s. peek_first M b n [] s

  pub peek-Leaves :
      (idx : Index M) (n : ℕ) (bs : List Batch)
      → IsValid M idx
      → map (λ (c : Batch). c.0) bs ≡ locations M idx
      → All (IsBacked b.log) bs
      → (p : Peeked M) × (peek M b n [] idx ≡ ok p)
        × (h : HasLowest n (all_items bs) p) × Leaves bs h.rest p
  peek-Leaves idx n bs v e k =
      peek_batches idx n bs v e k
        (Rising-RisingLocs bs (subst RisingLocs (sym e) (locations-RisingLocs M idx v)))

  -- On a valid index whose batches are sorted and lie intact in the log, the key of a location
  -- being the first key of its batch, peek of n items returns without an error: the items that it
  -- returns are in order, are n in number or all there are, and with the rest are exactly the
  -- items of the batches, of which none in the rest is lower than one returned.
  pub peek-HasLowest :
      (idx : Index M) (n : ℕ) (bs : List Batch)
      → IsValid M idx
      → map (λ (c : Batch). c.0) bs ≡ locations M idx
      → All (IsBacked b.log) bs
      → (p : Peeked M) × (peek M b n [] idx ≡ ok p) × HasLowest n (all_items bs) p
  peek-HasLowest idx n bs v e k =
      let (p, run, h, parted) = peek-Leaves idx n bs v e k in (p, run, h)
