-- ===== src/Bucket/PopRests.antt =====
-- popSync of bucket.go takes the locations that the iterators started at out of the index, and
-- sets what is left of each.
use mathlib.Core.List.{Perm, append_assoc, append-nil, map-append, perm_middle}
use mathlib.Core.HLevel.{¬_prop}
use mathlib.Core.List.Perm
use native.Mathlib.Bridge.{le_prop}
use timeq.Base.{
  ℕ, ◌+◌, ◌^◌, ◌<◌, ◌≡◌, ◌≢◌, refl, sym, ◌∙◌, ap, subst, List, [], ◌∷◌, ◌++◌, map, Option, none,
  arith, All, All-append_inv, true, Run, ok, ◌>>=◌, inl, inr,
}
use timeq.Base.Perms.{gather, All-perm, perm_length}
use timeq.Base.Words.{rank, rank_injective}
use timeq.Item.{Location}
use timeq.Btree.{OrderedMap, IsOrderedMap}
use timeq.Index.Stable.{
  SameOrder, SameOrder-append, FirstAt, NotAt, first_at, at_key, FirstAt-more, SameOrder-FirstAt,
  SameOrder-removed,
}
use timeq.Index.Locations.{locations}
use timeq.Index.Codec.{WriteAnswer, written, Writer, FileError}
use timeq.Index.Codec
use timeq.Vlog.Iter.{Iter}
use timeq.Bucket.{BucketIndex}
use timeq.Bucket.Merge.{first_keys}
use timeq.Bucket.Pop.{drop_loc, keep_rest, pop_loop, pop_sync, unless_failed}
use timeq.Bucket.PopJournal.{
  IsPoppable, IsSound, current_locations, keep_rest-IsSound, drop_loc-FirstAt,
}

abbrev pub loc_keys : List Location → List ℕ
loc_keys locs = map (λ (loc : Location). loc.key) locs

abbrev pub all_current : List Iter → List Location
all_current iters = gather current_locations iters

NotAt-keys :
    (k : ℕ) (locs : List Location) → NotAt k locs → All (λ j. rank j ≢ rank k) (loc_keys locs)
NotAt-keys k [] h = tt
NotAt-keys k (loc ∷ locs) h = (h.0, NotAt-keys k locs h.1)

module _ (k : ℕ) (ks : List ℕ) (pend : List Location) (p : Perm (k ∷ ks) (loc_keys pend)) where
  -- A location of the key is among those whose keys are listed.
  key_there : FirstAt k pend
  key_there = elim (first_at k pend) [
    | inl none_there ↦ absurd (
        (All-perm (λ j. rank j ≢ rank k) (λ j. ¬_prop) (Perm.symm p)
            (NotAt-keys k pend none_there)).0
          refl)
    | inr f ↦ f
  ]

  -- Without it, the others of the keys are left.
  after_key :
      All (λ j. j < 2 ^ 64) (k ∷ ks) → (f : FirstAt k pend) → Perm ks (loc_keys (f.front ++ f.back))
  after_key h f =
      let split : loc_keys pend ≡ loc_keys f.front ++ (f.loc.key ∷ loc_keys f.back) =
        ap loc_keys f.split ∙ map-append (λ (loc : Location). loc.key) f.front (f.loc ∷ f.back) in
      let bounds =
        All-append_inv (λ j. j < 2 ^ 64) (loc_keys f.front) (f.loc.key ∷ loc_keys f.back)
          (subst (All (λ j. j < 2 ^ 64)) split (All-perm (λ j. j < 2 ^ 64) (λ j. le_prop) p h)) in
      let key : f.loc.key ≡ k = rank_injective f.loc.key k bounds.1.0 h.0 f.same in
      subst (Perm ks) (sym (map-append (λ (loc : Location). loc.key) f.front f.back)) (
        Perm.cons_inv (
          Perm.trans
            (subst (Perm (k ∷ ks)) (split ∙ ap (λ j. loc_keys f.front ++ (j ∷ loc_keys f.back)) key)
              p)
            (perm_middle (loc_keys f.front) (loc_keys f.back))))

first_keys-bound :
    (iters : List Iter) → All IsPoppable iters → All (λ j. j < 2 ^ 64) (first_keys iters)
first_keys-bound [] h = tt
first_keys-bound (li ∷ iters) h = (h.0.key_bound, first_keys-bound iters h.1)

no_keys : (pend : List Location) → Perm [] (loc_keys pend) → pend ≡ []
no_keys [] p = refl
no_keys (loc ∷ pend) p = absurd (omega (arith, perm_length p))

module _ (M : OrderedMap (List Location)) (laws : IsOrderedMap M) where
  -- If every write succeeds, the loop of popSync takes the first locations of the keys that the
  -- iterators started at, which are those of `pend`, away and sets what is left of the iterators'
  -- batches behind the other locations.
  pub pop_loop-SameOrder :
      (idx : BucketIndex M) (iters : List Iter) (os : ℕ → WriteAnswer) (k : ℕ)
      (pend others : List Location)
      → ((n : ℕ) → os n ≡ written)
      → IsSound M laws idx
      → All IsPoppable iters
      → SameOrder (locations M idx.mem) (pend ++ others)
      → Perm (first_keys iters) (loc_keys pend)
      → (idx' : BucketIndex M) × (pop_loop M idx iters os k ≡ ok (idx', none))
        × IsSound M laws idx'
        × SameOrder (locations M idx'.mem) (others ++ all_current iters)
  unfolding pop_loop
  pop_loop-SameOrder idx [] os k pend others w s p h ks = (
    idx,
    refl,
    s,
    λ j.
        h j
        ∙ ap (λ ls. at_key j (ls ++ others)) (no_keys pend ks)
        ∙ ap (at_key j) (sym (append-nil others)),
  )
  pop_loop-SameOrder idx (li ∷ iters) os k pend others w s p h ks =
      let (kept, run_kept, s1, order1) = keep_rest-IsSound M laws idx li s p.0 in
      let more = others ++ current_locations li in
      let f = key_there li.first_key (first_keys iters) pend ks in
      let h1 : SameOrder (locations M kept.mem) (pend ++ more) = λ j.
        order1 j
        ∙ SameOrder-append (locations M idx.mem) (pend ++ others) (current_locations li) h j
        ∙ ap (at_key j) (append_assoc pend others (current_locations li)) in
      let f1 = FirstAt-more li.first_key pend more f in
      let g = SameOrder-FirstAt li.first_key (locations M kept.mem) (pend ++ more) h1 f1 in
      let (dropped, run_dropped, s2, order2) =
        drop_loc-FirstAt M laws kept li.first_key s1 p.0.key_bound g in
      let h2 : SameOrder (locations M dropped.mem) ((f.front ++ f.back) ++ more) = λ j.
        order2 j
        ∙ SameOrder-removed li.first_key (locations M kept.mem) (pend ++ more) g f1 h1 j
        ∙ ap (at_key j) (sym (append_assoc f.front f.back more)) in
      let (idx', run, s', order) =
        pop_loop-SameOrder dropped iters os (k + 2) (f.front ++ f.back) more w s2 p.1 h2
          (after_key li.first_key (first_keys iters) pend ks (first_keys-bound (li ∷ iters) p) f) in
      (
        idx',
        ap (λ r. unless_failed M r (λ idx1. drop_loc M idx1 li.first_key (os (k + 1)) >>= after))
              (ap (keep_rest M idx li) (w k) ∙ run_kept)
            ∙ ap (λ r. r >>= after) (ap (drop_loc M kept li.first_key) (w (k + 1)) ∙ run_dropped)
            ∙ run,
        s',
        λ j.
            order j
            ∙ ap (at_key j) (append_assoc others (current_locations li) (all_current iters)),
      )
    where
      after : BucketIndex M × Option FileError → Run (BucketIndex M × Option FileError)
      after r = unless_failed M r (λ idx2. pop_loop M idx2 iters os (k + 2))

  pub pop_sync-SameOrder :
      (idx : BucketIndex M) (iters : List Iter) (os : ℕ → WriteAnswer) (pend others : List Location)
      → ((n : ℕ) → os n ≡ written)
      → IsSound M laws idx
      → All IsPoppable iters
      → SameOrder (locations M idx.mem) (pend ++ others)
      → Perm (first_keys iters) (loc_keys pend)
      → (idx' : BucketIndex M) × (pop_sync M idx iters os true ≡ ok (idx', none))
        × IsSound M laws idx'
        × SameOrder (locations M idx'.mem) (others ++ all_current iters)
  unfolding pop_sync Codec.sync
  pop_sync-SameOrder idx [] os pend others w s p h ks = (
    idx,
    refl,
    s,
    λ j.
        h j
        ∙ ap (λ ls. at_key j (ls ++ others)) (no_keys pend ks)
        ∙ ap (at_key j) (sym (append-nil others)),
  )
  pop_sync-SameOrder idx (li ∷ iters) os pend others w s p h ks =
      let (idx', run, s', order) =
        pop_loop-SameOrder idx (li ∷ iters) os 0 pend others w s p h ks in
      (idx', rw (run) (ground arith), s', order)
