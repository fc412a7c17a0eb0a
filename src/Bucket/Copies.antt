-- ===== src/Bucket/Copies.antt =====
-- Fork and RemoveFork of bucket.go.
use mathlib.Core.List.{Perm}
use timeq.Base.{
  ℕ, ◌+◌, ◌<◌, ◌≡◌, refl, Bool, true, List, [], ◌∷◌, ◌++◌, none, some, length, All, ok, ◌>>=◌, ◌==◌,
  ==→eq, Bool-cases, inl, inr,
}
use timeq.Item.{Location}
use timeq.Btree.{OrderedMap, IsOrderedMap}
use timeq.Index.{Index, copy}
use timeq.Index.Locations.{IsValid, locations}
use timeq.Index.Codec.{WriteAnswer, written, load}
use timeq.Index.Codec.Records.{IsStorable}
use timeq.Index.Codec.Rewrite.{load-write_index}
use timeq.Bucket.{Bucket, BucketIndex, ForkName, name_eq, idx_for_fork}
use timeq.Bucket.Forks.{fork, add_fork}

pub name_eq→eq : (a b : ForkName) → name_eq a b ≡ true → a ≡ b
unfolding name_eq
name_eq→eq [] [] h = refl
name_eq→eq [] (d ∷ ds) h = absurd (cc)
name_eq→eq (c ∷ cs) [] h = absurd (cc)
name_eq→eq (c ∷ cs) (d ∷ ds) h = elim (Bool-cases (c == d)) [
  | inl e ↦ λ i. ==→eq c d e i ∷ name_eq→eq cs ds (rw e at h) i
  | inr e ↦ absurd (cc (rw e at h))
]

module _ (M : OrderedMap (List Location)) where
  -- Fork to a name that the bucket lacks, from a fork with a valid index of storable, nonempty
  -- locations, all writes succeeding and no file there: the bucket gets one more fork, with the
  -- source's index in memory, and with an index log that loads to an index of the same locations.
  pub fork-load :
      (laws : IsOrderedMap M) (b : Bucket M) (src dst : ForkName) (idx : BucketIndex M)
      (sync_index : Bool) (os : ℕ → WriteAnswer)
      → ((n : ℕ) → os n ≡ written)
      → idx_for_fork M b src ≡ some idx
      → idx_for_fork M b dst ≡ none
      → IsValid M idx.mem
      → All IsStorable (locations M idx.mem)
      → All (λ loc. 0 < loc.len) (locations M idx.mem)
      → (new : BucketIndex M) × (loaded : Index M) × (fork M b src dst sync_index []
            (length (locations M idx.mem) + 1)
            os
          ≡ ok (record b { indexes = b.indexes ++ ((dst, new) ∷ []) }, none))
        × (new.mem ≡ idx.mem)
        × (load M new.log.file ≡ ok (loaded, none))
        × Perm (locations M loaded) (locations M idx.mem)
  unfolding fork add_fork copy
  fork-load laws b src dst idx sync_index os w there absent v st pos =
      let (wr, loaded, run, back, v', same) = load-write_index M laws os w idx.mem v st pos in
      (
        record { log = record { file = wr.file; sync_mode = sync_index }; mem = copy M idx.mem },
        loaded,
        rw (fork, there, absent, run, ◌>>=◌),
        refl,
        back,
        same,
      )
