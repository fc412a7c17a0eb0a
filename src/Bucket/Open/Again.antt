-- ===== src/Bucket/Open/Again.antt =====
-- openBucket of bucket.go on the files that a bucket left behind.
use mathlib.Core.List.{append_assoc, append-nil}
use timeq.Base.{
  ℕ, ◌<◌, ◌≡◌, refl, sym, ◌∙◌, Bool-cases, ap, Bool, true, false, not, ◌&&◌, List, [], ◌∷◌, ◌++◌,
  map, none, some, arith, All, ok, ◌>>=◌, ltb, ◌==◌, if◌then◌else◌, inl, inr,
}
use timeq.Base.Words.{add64}
use timeq.Item.{Item, Location}
use timeq.Btree.{OrderedMap}
use timeq.Vlog.{Log, opened_log, open_log}
use timeq.Vlog.Entry.{Holds, encode_all}
use timeq.Vlog.Reopen.{open_log-Holds}
use timeq.Index.Codec.{load}
use timeq.Bucket.{Bucket, BucketIndex, ForkName, find_index, name_eq}
use timeq.Bucket.Forks.{all_empty}
use timeq.Bucket.Journal.{IsJournaled, load-IsJournaled}
use timeq.Bucket.Open.{
  IndexAnswers, BucketAnswers, Loaded, OpenError, has_flag, load_index, recover_index, checked,
  with_writer, set_index, load_forks, load_bucket, loaded_next, assembled, reinit, open_bucket,
}
use timeq.Options.{sync_data, sync_index}

module _ (M : OrderedMap (List Location)) where
  -- A fork's index whose file is a journal of the memory, with an entry.
  pub record IsStored (sync : Bool) (e : ForkName × BucketIndex M) : Type 0 where
    pub journaled : IsJournaled M e.1
    pub used : 0 < e.1.mem.nentries
    pub synced : e.1.log.sync_mode ≡ sync

  -- The index files of the forks.
  abbrev pub Filed : (ForkName → List ℕ) → List (ForkName × BucketIndex M) → Type 0
  Filed files es = All (λ (e : ForkName × BucketIndex M). files e.0 ≡ e.1.log.file) es

  -- No name of `es` comes twice, or is one of `seen`.
  abbrev pub Distinct : List (ForkName × BucketIndex M) → List (ForkName × BucketIndex M) → Type 0
  Distinct seen [] = Unit {0}
  Distinct seen ((name, idx) ∷ es) =
      (find_index M seen name ≡ none) × Distinct (seen ++ ((name, idx) ∷ [])) es

  abbrev pub Opens : IndexAnswers → Type 0
  Opens os = (os.opened ≡ true) × (os.reopened ≡ true)

  set_index-new :
      (es : List (ForkName × BucketIndex M)) (fork : ForkName) (idx : BucketIndex M)
      → find_index M es fork ≡ none
      → set_index M es fork idx ≡ es ++ ((fork, idx) ∷ [])
  unfolding set_index find_index
  set_index-new [] fork idx h = refl
  set_index-new ((name, old) ∷ es) fork idx h = elim (Bool-cases (name_eq name fork)) [
    | inl e ↦ absurd (cc (rw e at h))
    | inr e ↦ rw e (ap (◌∷◌ (name, old)) (set_index-new es fork idx (rw e at h)))
  ]

  load_index-IsStored :
      (fuel : ℕ) (l : Log) (files : ForkName → List ℕ) (sync : Bool) (os : IndexAnswers)
      (e : ForkName × BucketIndex M)
      → IsStored sync e
      → files e.0 ≡ e.1.log.file
      → Opens os
      → load_index M fuel l (files e.0) sync os ≡ ok (inl e.1)
  unfolding load_index
  load_index-IsStored fuel l files sync os e s filed yes_os =
      let recovered = recover_index M fuel l os in
      let kept : (e.1.mem.nentries == 0) ≡ false = ground (arith, s.used) in
      ap
        (λ o.
          (if o then (load M (files e.0) >>= checked M l (files e.0) recovered) else recovered)
          >>= λ r. ok (with_writer M sync os r))
        yes_os.0
      ∙ ap (λ q. (q >>= checked M l (files e.0) recovered) >>= λ r. ok (with_writer M sync os r))
          loaded
      ∙ ap
          (λ c. (if c && not l.is_empty then recovered else ok (inl (e.1.mem, files e.0))) >>= λ r.
            ok (with_writer M sync os r))
          kept
      ∙ ap
          (λ o. ok (
            if o
            then inl (record { log = record { file = files e.0; sync_mode = sync }; mem = e.1.mem })
            else inr OpenError.index_failed))
          yes_os.1
      ∙ (λ i. ok (
          inl (record {
            log = record { file = filed i; sync_mode = sym s.synced i };
            mem = e.1.mem;
          })))
    where
      loaded : load M (files e.0) ≡ ok (e.1.mem, none)
      loaded =
          ap (load M) (filed ∙ sym (append-nil e.1.log.file))
          ∙ load-IsJournaled M e.1 [] s.journaled (omega arith)

  load_forks-IsStored :
      (fuel sync_mode : ℕ) (l : Log) (files : ForkName → List ℕ) (os : ForkName → IndexAnswers)
      (seen es : List (ForkName × BucketIndex M)) (entries : ℕ)
      → Distinct seen es
      → All (IsStored (has_flag sync_mode sync_index)) es
      → Filed files es
      → ((fork : ForkName) → Opens (os fork))
      → (total : ℕ) × (load_forks M fuel sync_mode l files os
            (record { indexes = seen; entries = entries })
            (map (λ e. e.0) es)
          ≡ ok (inl (record { indexes = seen ++ es; entries = total })))
  unfolding load_forks
  load_forks-IsStored fuel sync_mode l files os seen [] entries d s f h =
      (entries, (λ i. ok (inl (record { indexes = sym (append-nil seen) i; entries = entries }))))
  load_forks-IsStored fuel sync_mode l files os seen ((name, idx) ∷ es) entries d s f h =
      let more = add64 entries idx.mem.nentries in
      let (total, run) =
        load_forks-IsStored fuel sync_mode l files os (seen ++ ((name, idx) ∷ [])) es more d.1 s.1
          f.1 h in
      let first : Loaded M = record { indexes = seen; entries = entries } in
      let rest = λ (s : Loaded M). load_forks M fuel sync_mode l files os s (map (λ e. e.0) es) in
      (
        total,
        ap (λ q. q >>= loaded_next M name first rest)
              (load_index-IsStored fuel l files (has_flag sync_mode sync_index) (os name)
                (name, idx) s.0 f.0 (h name))
            ∙ ap (λ is. rest (record { indexes = is; entries = more }))
                (set_index-new seen name idx d.0)
            ∙ run
            ∙ (λ i. ok (
                inl (record {
                  indexes = append_assoc seen ((name, idx) ∷ []) es i;
                  entries = total;
                }))),
      )

  -- A bucket whose files hold all that openBucket needs to find it again: its log has an entry,
  -- its indexes are stored, and not all of them are empty.
  pub record IsReopenable (sync_mode : ℕ) (forks : List ForkName) (b : Bucket M) : Type 0 where
    pub used : List ℕ
    pub first : Item
    pub items : List Item
    pub spare : ℕ
    pub holds : Holds b.log (used ++ encode_all (first ∷ items)) spare
    pub filled : b.log.is_empty ≡ false
    pub synced : b.log.sync_on_write ≡ has_flag sync_mode sync_data
    pub names : map (λ e. e.0) b.indexes ≡ forks ++ ([] ∷ [])
    pub distinct : Distinct [] b.indexes
    pub stored : All (IsStored (has_flag sync_mode sync_index)) b.indexes
    pub busy : all_empty M b ≡ false

  -- The system calls that opening an existing bucket makes all succeed.
  pub record AllOpen (os : BucketAnswers M) : Type 0 where
    pub made : os.made ≡ true
    pub log : (os.log.opened && os.log.statted && os.log.mapped) ≡ true
    pub indexes : (fork : ForkName) → Opens (os.indexes fork)

  -- openBucket on the files of a bucket gives that bucket, when the system calls succeed, the log
  -- has an entry and zeros behind its bytes in use, every index log is a journal of its memory
  -- with at least one entry, the forks have different names and are those that openBucket is
  -- called with, and not all indexes are empty.
  pub open_bucket-again :
      (page_size fuel sync_mode : ℕ) (b : Bucket M) (forks : List ForkName)
      (files : ForkName → List ℕ) (os : BucketAnswers M) (calls : List (BucketAnswers M))
      → IsReopenable sync_mode forks b
      → Filed files b.indexes
      → AllOpen os
      → open_bucket M page_size fuel sync_mode b.error_mode
          (some b.key)
          (os ∷ calls)
          b.log.mmap
          files
          forks
        ≡ ok (inl b)
  unfolding open_bucket load_bucket
  open_bucket-again page_size fuel sync_mode b forks files os calls r filed opens =
      let again =
        open_bucket M page_size fuel sync_mode b.error_mode (some b.key) calls [] (λ fork. [])
          (forks ++ ([] ∷ [])) in
      let loads =
        load_bucket M fuel sync_mode b.error_mode (some b.key) files (forks ++ ([] ∷ []))
          os.indexes in
      let (total, run) =
        load_forks-IsStored fuel sync_mode b.log files os.indexes [] b.indexes 0 r.distinct r.stored
          filed opens.indexes in
      ap
        (λ m.
          if not m
          then ok (inr OpenError.mkdir_failed)
          else (open_log page_size b.log.mmap (has_flag sync_mode sync_data) os.log
              >>= loads
              >>= reinit M os again))
        opens.made
      ∙ ap (λ q. q >>= loads >>= reinit M os again)
          (open_log-Holds page_size b.log r.used r.first r.items r.spare
            (has_flag sync_mode sync_data) os.log r.holds opens.log)
      ∙ ap (λ l. loads (opened_log l) >>= reinit M os again) same_log
      ∙ ap
          (λ names.
            load_forks M fuel sync_mode b.log files os.indexes
              (record { indexes = []; entries = 0 }) names
            >>= (λ r. ok (assembled M fuel sync_mode b.error_mode b.log (some b.key) r))
            >>= reinit M os again)
          (sym r.names)
      ∙ ap
          (λ q.
            q
            >>= (λ r. ok (assembled M fuel sync_mode b.error_mode b.log (some b.key) r))
            >>= reinit M os again)
          run
      ∙ ap (λ e. reinit M os again (inl (b, e && ltb 0 total))) r.busy
    where
      same_log :
          record {
            mmap = b.log.mmap;
            size = b.log.size;
            sync_on_write = has_flag sync_mode sync_data;
            is_empty = false;
          }
          ≡ b.log
      same_log i = record b.log { sync_on_write = sym r.synced i; is_empty = sym r.filled i }
