-- ===== src/Bucket.antt =====
-- bucket.go: a bucket, one value log with an index for each fork. The directory is left out, and
-- the map of forks is a list of pairs, in the order in which a `range` over the map visits them.
-- What a write answers is an argument. A panic stays an outcome where the state changes:
-- recoverMmapError makes an error of it, and the state it leaves is not modelled.
pub mod Peek
pub mod Pop
pub mod Delete
pub mod Open
pub mod Names
pub mod Forks
pub mod Copies
pub mod Merge
pub mod Journal
pub mod PushJournal
pub mod PushErrors
pub mod PopJournal
pub mod PopRests
pub mod Queue
use timeq.Base.{
  ℕ, Bool, true, false, not, ◌&&◌, List, [], ◌∷◌, Option, none, some, Run, ok, ◌>>=◌, ltb, ◌==◌,
  if◌then◌else◌,
}
use timeq.Item.{Item, Location}
use timeq.Btree.{OrderedMap}
use timeq.Vlog.{Log, LogError, PushAnswers}
use timeq.Vlog
use timeq.Vlog.Iter.{Iter, at}
use timeq.Index.{Index, set, trailer}
use timeq.Index.Codec.{Writer, WriteAnswer, FileError}
use timeq.Index.Codec
use timeq.Options.{error_mode_abort}

-- The bytes of a name.
abbrev pub ForkName : Type 0
ForkName = List ℕ

-- `==` on fork names.
unfoldable pub name_eq : ForkName → ForkName → Bool
name_eq [] [] = true
name_eq [] (d ∷ ds) = false
name_eq (c ∷ cs) [] = false
name_eq (c ∷ cs) (d ∷ ds) = c == d && name_eq cs ds

pub data BucketError : Type 0 where
  no_such_fork to_before_from mmap_fault : BucketError
  log_error : LogError → BucketError
  index_error : FileError → BucketError
  callback_error : BucketError

module _ (M : OrderedMap (List Location)) where
  pub record BucketIndex : Type 0 where
    pub log : Writer
    pub mem : Index M

  pub record Bucket : Type 0 where
    pub key : ℕ
    pub log : Log
    pub error_mode : ℕ
    pub indexes : List (ForkName × BucketIndex)

  unfoldable pub find_index : List (ForkName × BucketIndex) → ForkName → Option BucketIndex
  unfolding name_eq
  find_index [] fork = none
  find_index ((name, idx) ∷ rest) fork =
      if name_eq name fork then some idx else find_index rest fork

  abbrev pub idx_for_fork : Bucket → ForkName → Option BucketIndex
  idx_for_fork b fork = find_index b.indexes fork

  -- The map after a change of what the pointers of a fork's entry point to.
  unfoldable pub put_index :
      List (ForkName × BucketIndex) → ForkName → BucketIndex → List (ForkName × BucketIndex)
  unfolding name_eq
  put_index [] fork new = []
  put_index ((name, idx) ∷ rest) fork new =
      if name_eq name fork then (name, new) ∷ rest else (name, idx) ∷ put_index rest fork new

  -- The memory and the log of an entry after a push to the log.
  abbrev pub with_log : Index M → Writer × Option FileError → BucketIndex × Option FileError
  with_log mem (w, e) = (record { log = w; mem = mem }, e)

  -- `idx.Mem.Set(loc)` and `idx.Log.Push(loc, idx.Mem.Trailer())`.
  unfoldable pub add_loc : BucketIndex → Location → WriteAnswer → BucketIndex × Option FileError
  add_loc idx loc os =
      let mem = set M idx.mem loc in with_log mem (Codec.push idx.log loc (trailer M mem) os)

  -- A round of Push's loop over all forks; `rest` is the result of the next rounds.
  abbrev pub after_fork :
      ForkName
      → List (ForkName × BucketIndex)
      → BucketIndex × Option FileError
      → List (ForkName × BucketIndex) × Option FileError
      → List (ForkName × BucketIndex) × Option FileError
  after_fork name rest (idx, some e) done = ((name, idx) ∷ rest, some e)
  after_fork name rest (idx, none) (done, e) = ((name, idx) ∷ done, e)

  -- The loop of Push over all forks.
  unfoldable pub add_to_all :
      List (ForkName × BucketIndex)
      → Location
      → (ForkName → WriteAnswer)
      → List (ForkName × BucketIndex) × Option FileError
  unfolding add_loc
  add_to_all [] loc os = ([], none)
  add_to_all ((name, idx) ∷ rest) loc os =
      after_fork name rest (add_loc idx loc (os name)) (add_to_all rest loc os)

  abbrev pub file_error : Option FileError → Option BucketError
  file_error none = none
  file_error (some e) = some (index_error e)

  abbrev pub all_done :
      Bucket → List (ForkName × BucketIndex) × Option FileError → Bucket × Option BucketError
  all_done b (indexes, e) = (record b { indexes = indexes }, file_error e)

  abbrev pub one_done :
      Bucket → ForkName → BucketIndex × Option FileError → Bucket × Option BucketError
  one_done b name (idx, e) = (record b { indexes = put_index b.indexes name idx }, file_error e)

  -- Push once the items are in the log, or are not.
  unfoldable pub record_batch :
      Bucket
      → Bool
      → ForkName
      → Log × Location × Option LogError
      → (ForkName → WriteAnswer)
      → Bucket × Option BucketError
  unfolding add_to_all add_loc
  record_batch b all name (l, loc, some e) os = (record b { log = l }, some (log_error e))
  record_batch b all name (l, loc, none) os =
      let b' : Bucket = record b { log = l } in
      if all then all_done b' (add_to_all b'.indexes loc os) else elim (idx_for_fork b' name) [
        | none ↦ (b', some no_such_fork)
        | some idx ↦ one_done b' name (add_loc idx loc (os name))
      ]

  unfoldable pub push :
      ℕ
      → Bucket
      → List Item
      → Bool
      → ForkName
      → PushAnswers
      → (ForkName → WriteAnswer)
      → Run (Bucket × Option BucketError)
  unfolding record_batch
  push page_size b [] all name ls os = ok (b, none)
  push page_size b (it ∷ items) all name ls os =
      Vlog.push page_size b.log (it ∷ items) ls >>= λ r. ok (record_batch b all name r os)

  abbrev pub log_at : Bucket → Location → Iter
  log_at b loc = at loc (not (b.error_mode == error_mode_abort))
