-- ===== src/Buckets/Tree/Forking/Opening.antt =====
-- openBucket of bucket.go without a fork name: the bucket has no fork.
use timeq.Base.{
  ℕ, ◌≡◌, refl, sym, subst, Bool, true, false, not, List, [], ◌∷◌, ◌++◌, Option, none, some, Run,
  ok, if◌then◌else◌, ◌⊎◌, inl, inr, All, All-append, Ends, Ends-bind, Ends-any,
}
use timeq.Item.{Location}
use timeq.Btree.{OrderedMap}
use timeq.Vlog.{Log, OpenResult, opened_log, refused_open, open_log}
use timeq.Options.{sync_data}
use timeq.Bucket.{Bucket, BucketIndex, ForkName, name_eq}
use timeq.Bucket.Open.{
  IndexAnswers, BucketAnswers, Loaded, OpenError, has_flag, set_index, loaded_next, load_forks,
  load_bucket, assembled, reinit, open_bucket,
}
use timeq.Buckets.Tree.Forking.{fork_names}

-- No name but "", that of the queue itself.
abbrev pub Unforked : List ForkName → Type 0
Unforked forks = All (λ (f : ForkName). f ≡ []) forks

abbrev pub OnLeft {ℓ κ} : {A : Type ℓ} {B : Type κ} → (A → Type 0) → A ⊎ B → Type 0
OnLeft P (inl a) = P a
OnLeft P (inr b) = Unit {0}

module _ (M : OrderedMap (List Location)) (T : OrderedMap (Option (Bucket M))) where
  set_index-Unforked :
      (es : List (ForkName × BucketIndex M)) (idx : BucketIndex M)
      → fork_names M T es ≡ []
      → fork_names M T (set_index M es [] idx) ≡ []
  unfolding set_index name_eq
  set_index-Unforked [] idx h = refl
  set_index-Unforked (([], old) ∷ es) idx h = h
  set_index-Unforked ((c ∷ cs, old) ∷ es) idx h = absurd (cc)

  -- The indexes are those of the queue itself.
  abbrev pub Main : Loaded M → Type 0
  Main s = fork_names M T s.indexes ≡ []

  abbrev pub MainBucket : Bucket M → Type 0
  MainBucket b = fork_names M T b.indexes ≡ []

  loaded_next-Main :
      (fork : ForkName) (s : Loaded M) (again : Loaded M → Run (Loaded M ⊎ OpenError))
      → fork ≡ []
      → Main s
      → ((s' : Loaded M) → Main s' → Ends (OnLeft Main) (again s'))
      → (r : BucketIndex M ⊎ OpenError) → Ends (OnLeft Main) (loaded_next M fork s again r)
  loaded_next-Main fork s again u h more (inr e) = tt
  loaded_next-Main fork s again u h more (inl idx) = more _ (
      subst (λ f. fork_names M T (set_index M s.indexes f idx) ≡ []) (sym u)
        (set_index-Unforked s.indexes idx h))

  guarded :
      (t : Bool) (e : OpenError) (o : Run (Bucket M ⊎ OpenError))
      → Ends (OnLeft MainBucket) o
      → Ends (OnLeft MainBucket) (if t then ok (inr e) else o)
  guarded true e o h = tt
  guarded false e o h = h

  reinit-Main :
      (os : BucketAnswers M) (again : Run (Bucket M ⊎ OpenError))
      (r : (Bucket M × Bool) ⊎ OpenError)
      → Ends (OnLeft MainBucket) again
      → OnLeft (λ (p : Bucket M × Bool). MainBucket p.0) r
      → Ends (OnLeft MainBucket) (reinit M os again r)
  reinit-Main os again (inr e) h p = tt
  reinit-Main os again (inl (b, false)) h p = p
  reinit-Main os again (inl (b, true)) h p =
      guarded (not os.closed) OpenError.close_failed _
        (guarded (not os.removed) OpenError.dir_not_removed again h)

  module _ (fuel sync_mode : ℕ) where
    load_forks-Unforked :
        (l : Log) (files : ForkName → List ℕ) (os : ForkName → IndexAnswers) (s : Loaded M)
        (forks : List ForkName)
        → Unforked forks
        → Main s
        → Ends (OnLeft Main) (load_forks M fuel sync_mode l files os s forks)
    unfolding load_forks
    load_forks-Unforked l files os s [] u h = h
    load_forks-Unforked l files os s (fork ∷ forks) u h =
        Ends-bind (λ r. Unit {0}) (OnLeft Main) _
          (loaded_next M fork s (λ s'. load_forks M fuel sync_mode l files os s' forks))
          (Ends-any _)
          (λ r t.
            loaded_next-Main fork s _ u.0 h
              (λ s' h'. load_forks-Unforked l files os s' forks u.1 h') r)

    load_bucket-Unforked :
        (error_mode : ℕ) (key : Option ℕ) (files : ForkName → List ℕ) (forks : List ForkName)
        (os : ForkName → IndexAnswers) (r : OpenResult)
        → Unforked forks
        → Ends
            (OnLeft (λ (p : Bucket M × Bool). MainBucket p.0))
            (load_bucket M fuel sync_mode error_mode key files forks os r)
    unfolding load_bucket
    load_bucket-Unforked error_mode key files forks os (refused_open e) u = tt
    load_bucket-Unforked error_mode key files forks os (opened_log l) u =
        Ends-bind (OnLeft Main) (OnLeft (λ (p : Bucket M × Bool). MainBucket p.0)) _
          (λ r. ok (assembled M fuel sync_mode error_mode l key r))
          (load_forks-Unforked l files os (record { indexes = []; entries = 0 }) forks u refl)
          (bucket_of key)
      where
        bucket_of :
            (key : Option ℕ) (r : Loaded M ⊎ OpenError)
            → OnLeft Main r
            → OnLeft
                (λ (p : Bucket M × Bool). MainBucket p.0)
                (assembled M fuel sync_mode error_mode l key r)
        bucket_of key (inr e) h = tt
        bucket_of none (inl s) h = tt
        bucket_of (some k) (inl s) h = h

    pub open_bucket-Unforked :
        (page_size error_mode : ℕ) (key : Option ℕ) (calls : List (BucketAnswers M))
        (log_file : List ℕ) (files : ForkName → List ℕ) (forks : List ForkName)
        → Unforked forks
        → Ends
            (OnLeft MainBucket)
            (open_bucket M page_size fuel sync_mode error_mode key calls log_file files forks)
    unfolding open_bucket
    open_bucket-Unforked page_size error_mode key [] log_file files forks u = tt
    open_bucket-Unforked page_size error_mode key (os ∷ calls) log_file files forks u =
        let again =
          open_bucket M page_size fuel sync_mode error_mode key calls [] (λ fork. [])
            (forks ++ ([] ∷ [])) in
        let more : Unforked (forks ++ ([] ∷ [])) =
          All-append (λ (f : ForkName). f ≡ []) forks ([] ∷ []) u (refl, tt) in
        guarded (not os.made) OpenError.mkdir_failed _ (
          Ends-bind (OnLeft (λ (p : Bucket M × Bool). MainBucket p.0)) (OnLeft MainBucket) _
            (reinit M os again)
            (Ends-bind (λ r. Unit {0}) (OnLeft (λ (p : Bucket M × Bool). MainBucket p.0))
              (open_log page_size log_file (has_flag sync_mode sync_data) os.log)
              (load_bucket M fuel sync_mode error_mode key files (forks ++ ([] ∷ [])) os.indexes)
              (Ends-any (open_log page_size log_file (has_flag sync_mode sync_data) os.log))
              (λ r t.
                load_bucket-Unforked error_mode key files (forks ++ ([] ∷ [])) os.indexes r more))
            (λ r h.
              reinit-Main os again r
                (open_bucket-Unforked page_size error_mode key calls [] (λ fork. [])
                  (forks ++ ([] ∷ [])) more)
                h))
