-- ===== src/Bucket/PopJournal.antt =====
-- popSync of bucket.go keeps the index valid and its log a journal of it, and never panics.
use mathlib.Core.List.{append-nil}
use timeq.Base.{
  ℕ, ◌+◌, ◌^◌, ◌<◌, ◌≡◌, refl, sym, ◌∙◌, ap, subst, true, false, List, [], ◌∷◌, ◌++◌, Option, none,
  arith, All, Run, ok, ◌>>=◌, Option-cases, inl, inr, Bool-cases, if◌then◌else◌,
}
use timeq.Item.{Location}
use timeq.Btree.{OrderedMap, IsOrderedMap}
use timeq.Index.{Index, delete, trailer, no_location}
use timeq.Index.Stable.{SameOrder, FirstAt, at_key}
use timeq.Index.Slots.{slot-Grouped, delete-FirstAt}
use timeq.Index.Locations.{IsValid, locations, set_lem, delete_lem, delete-absent}
use timeq.Index.Codec.{WriteAnswer, written, record_of, apply, Writer, FileError}
use timeq.Index.Codec
use timeq.Index.Codec.Records.{IsStorable}
use timeq.Vlog.Iter.{Iter, current_location}
use timeq.Bucket.{BucketIndex, add_loc}
use timeq.Bucket.Pop.{dead_location, drop_loc, keep_rest, pop_loop, pop_sync, unless_failed}
use timeq.Bucket.Journal.{IsJournaled, journal_step, add_loc-IsJournaled}

-- What popSync needs of an iterator: keys of 64 bits, and what is left of a batch fits a record.
pub record IsPoppable (li : Iter) : Type 0 where
  pub key_bound : li.first_key < 2 ^ 64
  pub left :
      li.exhausted ≡ false → IsStorable (current_location li) × (0 < (current_location li).len)

-- What of an iterator's batch is left to be set as a location.
abbrev pub current_locations : Iter → List Location
current_locations li = if li.exhausted then [] else current_location li ∷ []

current_locations-exhausted : (li : Iter) → li.exhausted ≡ true → current_locations li ≡ []
current_locations-exhausted li e = ap (λ t. if t then [] else current_location li ∷ []) e

current_locations-live :
    (li : Iter) → li.exhausted ≡ false → current_locations li ≡ current_location li ∷ []
current_locations-live li e = ap (λ t. if t then [] else current_location li ∷ []) e

module _ (M : OrderedMap (List Location)) (laws : IsOrderedMap M) where
  -- Every key of a valid index has a location, so Delete does not panic.
  pub delete_total :
      (i : Index M) (key : ℕ)
      → IsValid M i
      → (i' : Index M) × (dead : Location) × (delete M i key ≡ ok (i', dead)) × IsValid M i'
  delete_total i key v = elim (Option-cases (M.get i.m key)) [
    | inl e ↦ (i, no_location, delete-absent M laws i v key e, v)
    | inr ([], e) ↦ absurd (omega (arith, (slot-Grouped M laws i v key [] e).0))
    | inr (loc ∷ rest, e) ↦
        let (i', run, v', all, order) = delete_lem M laws i v key loc rest e in (i', loc, run, v')
  ]

  -- What holds of an entry between two operations.
  pub record IsSound (idx : BucketIndex M) : Type 0 where
    pub valid : IsValid M idx.mem
    pub journaled : IsJournaled M idx

  -- The record of a deletion that was made in memory.
  drop_loc-recorded :
      (idx : BucketIndex M) (key : ℕ) (mem : Index M) (dead : Location)
      → IsSound idx
      → key < 2 ^ 64
      → delete M idx.mem key ≡ ok (mem, dead)
      → IsValid M mem
      → (idx' : BucketIndex M) × (drop_loc M idx key written ≡ ok (idx', none))
        × IsSound idx'
        × (idx'.mem ≡ mem)
  unfolding drop_loc Codec.push apply
  drop_loc-recorded idx key mem dead s h run v =
      let dropped : apply M idx.mem (dead_location key) ≡ ok mem = rw run in
      (
        record {
          log = record idx.log {
            file = idx.log.file ++ record_of (dead_location key) (trailer M mem);
          };
          mem = mem;
        },
        rw run,
        record {
          valid = v;
          journaled =
              journal_step M idx (dead_location key) (trailer M mem) mem s.journaled
                (record { key_bound = h; off_bound = omega arith; len_bound = omega arith })
                dropped;
        },
        refl,
      )

  -- Delete of a key that has a location takes the first one away.
  pub drop_loc-FirstAt :
      (idx : BucketIndex M) (key : ℕ)
      → IsSound idx
      → key < 2 ^ 64
      → (f : FirstAt key (locations M idx.mem))
      → (idx' : BucketIndex M) × (drop_loc M idx key written ≡ ok (idx', none))
        × IsSound idx'
        × SameOrder (locations M idx'.mem) (f.front ++ f.back)
  drop_loc-FirstAt idx key s h f =
      let (mem, run, v, order) = delete-FirstAt M laws idx.mem s.valid key f in
      let (idx', done, s', same) = drop_loc-recorded idx key mem f.loc s h run v in
      (idx', done, s', subst (λ m. SameOrder (locations M m) (f.front ++ f.back)) (sym same) order)

  drop_loc-IsSound :
      (idx : BucketIndex M) (key : ℕ)
      → IsSound idx
      → key < 2 ^ 64
      → (idx' : BucketIndex M) × (drop_loc M idx key written ≡ ok (idx', none)) × IsSound idx'
  drop_loc-IsSound idx key s h =
      let (mem, dead, run, v) = delete_total idx.mem key s.valid in
      let (idx', done, s', same) = drop_loc-recorded idx key mem dead s h run v in (idx', done, s')

  pub keep_rest-IsSound :
      (idx : BucketIndex M) (li : Iter)
      → IsSound idx
      → IsPoppable li
      → (idx' : BucketIndex M) × (keep_rest M idx li written ≡ (idx', none))
        × IsSound idx'
        × SameOrder (locations M idx'.mem) (locations M idx.mem ++ current_locations li)
  unfolding keep_rest add_loc Codec.push
  keep_rest-IsSound idx li s p = elim (Bool-cases li.exhausted) [
    | inl e ↦ (
      idx,
      rw e,
      s,
      λ k. ap (at_key k) (
          sym (append-nil (locations M idx.mem))
          ∙ ap (λ ls. locations M idx.mem ++ ls) (sym (current_locations-exhausted li e))),
    )
    | inr e ↦
        let (st, pos) = p.left e in
        let (valid, all, order) = set_lem M laws idx.mem s.valid (current_location li) in
        (
          (add_loc M idx (current_location li) written).0,
          rw e,
          record {
            valid = valid;
            journaled = add_loc-IsJournaled M idx (current_location li) s.journaled st pos;
          },
          λ k.
              order k
              ∙ ap (λ ls. at_key k (locations M idx.mem ++ ls)) (sym (current_locations-live li e)),
        )
  ]

  pub pop_loop-IsSound :
      (idx : BucketIndex M) (iters : List Iter) (os : ℕ → WriteAnswer) (k : ℕ)
      → ((n : ℕ) → os n ≡ written)
      → IsSound idx
      → All IsPoppable iters
      → (idx' : BucketIndex M) × (pop_loop M idx iters os k ≡ ok (idx', none)) × IsSound idx'
  unfolding pop_loop
  pop_loop-IsSound idx [] os k w s p = (idx, refl, s)
  pop_loop-IsSound idx (li ∷ iters) os k w s p =
      let (kept, run_kept, s1, _) = keep_rest-IsSound idx li s p.0 in
      let (dropped, run_dropped, s2) = drop_loc-IsSound kept li.first_key s1 p.0.key_bound in
      let (idx', run, s') = pop_loop-IsSound dropped iters os (k + 2) w s2 p.1 in
      (
        idx',
        ap (λ r. unless_failed M r (λ idx1. drop_loc M idx1 li.first_key (os (k + 1)) >>= after))
              (ap (keep_rest M idx li) (w k) ∙ run_kept)
            ∙ ap (λ r. r >>= after) (ap (drop_loc M kept li.first_key) (w (k + 1)) ∙ run_dropped)
            ∙ run,
        s',
      )
    where
      after : BucketIndex M × Option FileError → Run (BucketIndex M × Option FileError)
      after r = unless_failed M r (λ idx2. pop_loop M idx2 iters os (k + 2))

  -- If every write and the sync succeed, and the keys and the rests of the iterators fit a record,
  -- popSync neither panics nor returns an error. The index in memory stays valid, and its log a
  -- journal of it.
  pub pop_sync-IsSound :
      (idx : BucketIndex M) (iters : List Iter) (os : ℕ → WriteAnswer)
      → ((n : ℕ) → os n ≡ written)
      → IsSound idx
      → All IsPoppable iters
      → (idx' : BucketIndex M) × (pop_sync M idx iters os true ≡ ok (idx', none)) × IsSound idx'
  unfolding pop_sync Codec.sync
  pop_sync-IsSound idx [] os w s p = (idx, refl, s)
  pop_sync-IsSound idx (li ∷ iters) os w s p =
      let (idx', run, s') = pop_loop-IsSound idx (li ∷ iters) os 0 w s p in
      (idx', rw (run) (ground arith), s')
