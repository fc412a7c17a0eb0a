-- ===== src/Bucket/Forks.antt =====
-- The forks of a bucket: Fork, RemoveFork, AllEmpty, Empty, Len and Trailers of bucket.go.
-- The files of the index logs are those of the writers; the file that Fork writes to is an argument.
use timeq.Base.{
  ℕ, Bool, true, false, List, [], ◌∷◌, ◌++◌, Option, none, some, Run, ok, ◌>>=◌, ltb, ◌==◌,
  if◌then◌else◌,
}
use timeq.Item.{Location}
use timeq.Btree.{OrderedMap}
use timeq.Index.{Trailer, copy, trailer}
use timeq.Index.Codec.{WriteAnswer, FileError, Writer, write_index}
use timeq.Bucket.{
  Bucket, BucketIndex, BucketError, ForkName, name_eq, no_such_fork, index_error, idx_for_fork,
}

module _ (M : OrderedMap (List Location)) where
  unfoldable pub indexes_empty : List (ForkName × BucketIndex M) → Bool
  indexes_empty [] = true
  indexes_empty ((name, idx) ∷ rest) = if ltb 0 idx.mem.len then false else indexes_empty rest

  abbrev pub all_empty : Bucket M → Bool
  all_empty b = indexes_empty b.indexes

  unfoldable pub is_empty : Bucket M → ForkName → Bool
  is_empty b fork = elim (idx_for_fork M b fork) [ none ↦ true | some idx ↦ idx.mem.len == 0 ]

  unfoldable pub len : Bucket M → ForkName → ℕ
  len b fork = elim (idx_for_fork M b fork) [ none ↦ 0 | some idx ↦ idx.mem.len ]

  -- Trailers: what the callback is called with.
  unfoldable pub trailers : List (ForkName × BucketIndex M) → List (ForkName × Trailer)
  trailers [] = []
  trailers ((name, idx) ∷ rest) = (name, trailer M idx.mem) ∷ trailers rest

  -- Fork once the index was written; the new writer goes on where WriteIndex stopped.
  unfoldable pub add_fork :
      Bucket M
      → BucketIndex M
      → ForkName
      → Bool
      → Writer × Option FileError
      → Bucket M × Option BucketError
  add_fork b src dst sync_index (w, some e) = (b, some (index_error e))
  add_fork b src dst sync_index (w, none) = (
    record b {
      indexes =
          b.indexes
          ++ ((
            dst,
            record { log = record { file = w.file; sync_mode = sync_index }; mem = copy M src.mem },
          )
              ∷ []);
    },
    none,
  )

  -- Fork: `file` holds the bytes at the new index's path, `fuel` the rounds of WriteIndex.
  unfoldable pub fork :
      Bucket M
      → ForkName
      → ForkName
      → Bool
      → List ℕ
      → ℕ
      → (ℕ → WriteAnswer)
      → Run (Bucket M × Option BucketError)
  unfolding add_fork
  fork b src dst sync_index file fuel os = elim (idx_for_fork M b src) [
    | none ↦ ok (b, some no_such_fork)
    | some idx ↦ elim (idx_for_fork M b dst) [
      | some there ↦ ok (b, none)
      | none ↦ (write_index M idx.mem file fuel os >>= λ w. ok (add_fork b idx dst sync_index w))
    ]
  ]

  -- `delete(b.indexes, fork)`
  unfoldable pub drop_index :
      List (ForkName × BucketIndex M) → ForkName → List (ForkName × BucketIndex M)
  drop_index [] fork = []
  drop_index ((name, idx) ∷ rest) fork =
      if name_eq name fork then drop_index rest fork else (name, idx) ∷ drop_index rest fork

  -- RemoveFork; `removed` is the answer of closing and removing its file.
  unfoldable pub remove_fork :
      Bucket M → ForkName → Option FileError → Bucket M × Option BucketError
  remove_fork b fork removed = elim (idx_for_fork M b fork) [
    | none ↦ (b, some no_such_fork)
    | some idx ↦ (
      record b { indexes = drop_index b.indexes fork },
      elim removed [ none ↦ none | some e ↦ some (index_error e) ],
    )
  ]
