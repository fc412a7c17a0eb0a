-- ===== src/Bucket/Open.antt =====
-- openBucket of bucket.go, with loadIndex and recoverIndexFromLog: a bucket read from its files. A
-- file is its bytes, and a missing file has none: Load and NewWriter create it. What the system
-- calls answer is an argument, and so is the key that the directory's name gives.
pub mod Again
use timeq.Base.{
  ℕ, zero, suc, ◌+◌, ◌/◌, ◌%◌, ◌≡◌, refl, Bool, true, false, not, ◌&&◌, List, [], ◌∷◌, ◌++◌, Option,
  none, some, Run, ok, out_of_fuel, ◌>>=◌, ltb, ◌==◌, if◌then◌else◌, ◌⊎◌, inl, inr,
}
use timeq.Base.Words.{add64}
use timeq.Item.{Location}
use timeq.Btree.{OrderedMap}
use timeq.Vlog.{Log, LogError, OpenAnswers, OpenResult, opened_log, refused_open, open_log}
use timeq.Index.{Index, from_vlog}
use timeq.Index.Codec.{FileError, WriteAnswer, Writer, load, write_index}
use timeq.Options.{sync_data, sync_index}
use timeq.Bucket.{Bucket, BucketIndex, ForkName, name_eq}
use timeq.Bucket.Forks.{all_empty}

pub data OpenError : Type 0 where
  mkdir_failed index_failed remove_failed bad_key close_failed dir_not_removed : OpenError
  log_refused : LogError → OpenError
  not_recovered : LogError → OpenError
  not_written : OpenError

-- The answers of the system calls that loadIndex makes for a fork: of Load's open, of the removal
-- of the broken index, of WriteIndex's open and its writes, and of NewWriter.
pub record IndexAnswers : Type 0 where
  pub opened : Bool
  pub removed : Bool
  pub created : Bool
  pub writes : ℕ → WriteAnswer
  pub reopened : Bool

-- `opts.SyncMode & flag > 0`, for a flag of one bit.
abbrev pub has_flag : ℕ → ℕ → Bool
has_flag mode flag = mode / flag % 2 == 1

module _ (M : OrderedMap (List Location)) where
  -- Load made an index, or an error that leads to the recovery, or the index has no entries.
  abbrev pub needs_recovery : Log → Index M × Option FileError → Bool
  needs_recovery l (mem, some e) = true
  needs_recovery l (mem, none) = mem.nentries == 0 && not l.is_empty

  -- The end of recoverIndexFromLog: the index and the bytes of its file.
  abbrev pub rewritten : Index M → Writer × Option FileError → (Index M × List ℕ) ⊎ OpenError
  rewritten mem (w, some e) = inr not_written
  rewritten mem (w, none) = inl (mem, w.file)

  -- recoverIndexFromLog once the log was read.
  unfoldable pub rewrite_index :
      ℕ → IndexAnswers → Index M ⊎ LogError → Run ((Index M × List ℕ) ⊎ OpenError)
  rewrite_index fuel os (inr e) = ok (inr (not_recovered e))
  rewrite_index fuel os (inl mem) =
      let written = write_index M mem [] fuel os.writes >>= λ w. ok (rewritten mem w) in
      if not os.removed
      then ok (inr remove_failed)
      else if not os.created
      then ok (inr not_written)
      else written

  -- recoverIndexFromLog; `fuel` are the rounds of WriteIndex.
  unfoldable pub recover_index : ℕ → Log → IndexAnswers → Run ((Index M × List ℕ) ⊎ OpenError)
  unfolding rewrite_index
  recover_index fuel l os = from_vlog M l >>= rewrite_index fuel os

  -- The end of loadIndex.
  abbrev pub with_writer :
      Bool → IndexAnswers → (Index M × List ℕ) ⊎ OpenError → BucketIndex M ⊎ OpenError
  with_writer sync os (inr e) = inr e
  with_writer sync os (inl (mem, file)) =
      if os.reopened
      then inl (record { log = record { file = file; sync_mode = sync }; mem = mem })
      else inr index_failed

  -- loadIndex once Load returned; `recovered` is what the recovery would give.
  abbrev pub checked :
      Log
      → List ℕ
      → Run ((Index M × List ℕ) ⊎ OpenError)
      → Index M × Option FileError
      → Run ((Index M × List ℕ) ⊎ OpenError)
  checked l file recovered r = if needs_recovery l r then recovered else ok (inl (r.0, file))

  unfoldable pub load_index :
      ℕ → Log → List ℕ → Bool → IndexAnswers → Run (BucketIndex M ⊎ OpenError)
  unfolding recover_index
  load_index fuel l file sync os =
      let recovered = recover_index fuel l os in
      let found = load M file >>= checked l file recovered in
      (if os.opened then found else recovered) >>= λ r. ok (with_writer sync os r)

  -- `indexes[fork] = idx`
  unfoldable pub set_index :
      List (ForkName × BucketIndex M) → ForkName → BucketIndex M → List (ForkName × BucketIndex M)
  unfolding name_eq
  set_index [] fork new = (fork, new) ∷ []
  set_index ((name, idx) ∷ rest) fork new =
      if name_eq name fork then (name, new) ∷ rest else (name, idx) ∷ set_index rest fork new

  -- The variables of openBucket's loop.
  pub record Loaded : Type 0 where
    pub indexes : List (ForkName × BucketIndex M)
    pub entries : ℕ

  abbrev pub loaded_next :
      ForkName
      → Loaded
      → (Loaded → Run (Loaded ⊎ OpenError))
      → BucketIndex M ⊎ OpenError
      → Run (Loaded ⊎ OpenError)
  loaded_next fork s again (inr e) = ok (inr e)
  loaded_next fork s again (inl idx) = again (record {
    indexes = set_index s.indexes fork idx;
    entries = add64 s.entries idx.mem.nentries;
  })

  module _ (fuel : ℕ) (sync_mode : ℕ) where
    -- The loop of openBucket over the forks.
    unfoldable pub load_forks :
        Log
        → (ForkName → List ℕ)
        → (ForkName → IndexAnswers)
        → Loaded
        → List ForkName
        → Run (Loaded ⊎ OpenError)
    load_forks l files os s [] = ok (inl s)
    load_forks l files os s (fork ∷ forks) =
        load_index fuel l (files fork) (has_flag sync_mode sync_index) (os fork)
        >>= loaded_next fork s (λ s'. load_forks l files os s' forks)

    -- The bucket, and whether it is empty but occupies space.
    abbrev pub assembled : ℕ → Log → Option ℕ → Loaded ⊎ OpenError → (Bucket M × Bool) ⊎ OpenError
    assembled error_mode l key (inr e) = inr e
    assembled error_mode l none (inl s) = inr bad_key
    assembled error_mode l (some key) (inl s) =
        let b : Bucket M = record {
          key = key;
          log = l;
          error_mode = error_mode;
          indexes = s.indexes;
        } in
        inl (b, all_empty M b && ltb 0 s.entries)

    -- openBucket once the log was opened, or was not.
    unfoldable pub load_bucket :
        ℕ
        → Option ℕ
        → (ForkName → List ℕ)
        → List ForkName
        → (ForkName → IndexAnswers)
        → OpenResult
        → Run ((Bucket M × Bool) ⊎ OpenError)
    unfolding load_forks
    load_bucket error_mode key files forks os (refused_open e) = ok (inr (log_refused e))
    load_bucket error_mode key files forks os (opened_log l) =
        load_forks l files os (record { indexes = []; entries = 0 }) forks >>= λ r.
        ok (assembled error_mode l key r)

  -- The answers of the system calls of one call of openBucket.
  pub record BucketAnswers : Type 0 where
    pub made : Bool
    pub log : OpenAnswers
    pub indexes : ForkName → IndexAnswers
    pub closed : Bool
    pub removed : Bool

  -- openBucket after its check of an empty bucket; `again` is the call on the removed directory.
  abbrev pub reinit :
      BucketAnswers
      → Run (Bucket M ⊎ OpenError)
      → (Bucket M × Bool) ⊎ OpenError
      → Run (Bucket M ⊎ OpenError)
  reinit os again (inr e) = ok (inr e)
  reinit os again (inl (b, false)) = ok (inl b)
  reinit os again (inl (b, true)) =
      if not os.closed
      then ok (inr close_failed)
      else if not os.removed
      then ok (inr dir_not_removed)
      else again

  -- openBucket with the options' sync and error mode. The answers are those of
  -- the call and of the calls that it makes of itself, one after the other.
  unfoldable pub open_bucket :
      ℕ
      → ℕ
      → ℕ
      → ℕ
      → Option ℕ
      → List BucketAnswers
      → List ℕ
      → (ForkName → List ℕ)
      → List ForkName
      → Run (Bucket M ⊎ OpenError)
  unfolding load_bucket
  open_bucket page_size fuel sync_mode error_mode key [] log_file files forks = out_of_fuel
  open_bucket page_size fuel sync_mode error_mode key (os ∷ calls) log_file files forks =
      let again =
        open_bucket page_size fuel sync_mode error_mode key calls [] (λ fork. [])
          (forks ++ ([] ∷ [])) in
      let opened =
        open_log page_size log_file (has_flag sync_mode sync_data) os.log
        >>= load_bucket fuel sync_mode error_mode key files (forks ++ ([] ∷ [])) os.indexes
        >>= reinit os again in
      if not os.made then ok (inr mkdir_failed) else opened
