-- ===== src/Buckets/Tree/Forking.antt =====
-- The forks of a queue: loadAllBuckets, fetchForks, Fork, RemoveFork and ValidateBucketKeys of
-- buckets.go, and forkOffline and removeForkOffline of bucket.go. Validate of a fork name and
-- slices.Sort on names are parameters, and so is what a directory's listing shows.
pub mod Opening
pub mod Lost
use timeq.Base.{
  ℕ, Bool, true, false, not, ◌&&◌, List, [], ◌∷◌, ◌++◌, Option, none, some, Run, ok, ◌>>=◌, ◌==◌,
  if◌then◌else◌, ltb, length, ◌⊎◌, inl, inr, ◌+◌,
}
use timeq.Item.{Location}
use timeq.Btree.{OrderedMap}
use timeq.Index.{Trailer}
use timeq.Index.Codec.{FileError, WriteAnswer}
use timeq.Options.{Options, sync_index, error_mode_abort}
use timeq.Bucket.{Bucket, BucketIndex, BucketError, ForkName, name_eq}
use timeq.Bucket.Forks.{all_empty, fork, remove_fork}
use timeq.Bucket.Open.{has_flag}
use timeq.Buckets.Tree.{
  Buckets, Env, Entry, Dir, Trailers, TreeError, of_bucket, bad_fork_name, not_copied, not_removed,
  add_trailers, put_dir, bytes, contains, for_key,
}
use timeq.Buckets.Tree.Deleting.{delete_bucket}
use timeq.Buckets.Tree.Iter.{Verdict, goes_on, fails, iter, include_nil, with_bucket}

-- The index file of a fork put into a directory, or taken out.
abbrev pub put_file : Dir → ForkName → Option (List ℕ) → Dir
put_file d fork file = record d {
  index_files = λ f. if name_eq fork f then file else d.index_files f;
}

-- forkOffline: `copied` is the answer of the copy. A source that is missing cannot be copied.
unfoldable pub fork_offline : Dir → ForkName → ForkName → Bool → Dir × Bool
fork_offline d src dst copied = elim (d.index_files dst) [
  | some file ↦ (d, true)
  | none ↦ elim (d.index_files src) [
    | none ↦ (d, false)
    | some file ↦ if copied then (put_file d dst (some file), true) else (d, false)
  ]
]

-- removeForkOffline: `removed` is the answer of the removal of a file that is there.
unfoldable pub remove_fork_offline : Dir → ForkName → Bool → Dir × Bool
remove_fork_offline d fork removed = elim (d.index_files fork) [
  | none ↦ (d, false)
  | some file ↦ if removed then (put_file d fork none, true) else (d, false)
]

-- `slices.DeleteFunc(bs.forks, ...)`
unfoldable pub drop_name : ForkName → List ForkName → List ForkName
drop_name fork [] = []
drop_name fork (f ∷ forks) =
    if name_eq fork f then drop_name fork forks else f ∷ drop_name fork forks

-- An entry of the queue's directory: whether its name is split.conf, and for a directory the key
-- that its name gives and the trailers of its index logs.
pub data DirEntry : Type 0 where
  file : Bool → DirEntry
  dir : Option ℕ → List (ForkName × Trailer) → DirEntry

module _ (M : OrderedMap (List Location)) (T : OrderedMap (Option (Bucket M))) where
  -- The names of b.indexes but "", in the order of the map.
  abbrev pub fork_names : List (ForkName × BucketIndex M) → List ForkName
  fork_names [] = []
  fork_names (([], idx) ∷ rest) = fork_names rest
  fork_names ((c ∷ cs, idx) ∷ rest) = (c ∷ cs) ∷ fork_names rest

  -- The last value that fetchForks' loop sees, which is nil if that bucket is not loaded.
  abbrev pub last_bucket : List (Entry M T) → Option (Bucket M)
  last_bucket [] = none
  last_bucket ((key, slot) ∷ []) = slot
  last_bucket ((key, slot) ∷ e ∷ es) = last_bucket (e ∷ es)

  module _ (env : Env M T) (opts : Options) where
    abbrev pub Fetched : Type 0
    Fetched = Buckets M T × (List ForkName ⊎ TreeError)

    -- fetchForks once a bucket was opened, or was not.
    abbrev pub names_of :
        (List ForkName → List ForkName) → Buckets M T × (Bucket M ⊎ TreeError) → Fetched
    names_of sort (s, inr e) = (s, inr e)
    names_of sort (s, inl b) = (s, inl (sort (fork_names b.indexes)))

    -- The first bucket is loaded for its forks.
    unfoldable pub fetch_first :
        (List ForkName → List ForkName) → Buckets M T → List (Entry M T) → Run Fetched
    fetch_first sort s [] = ok (s, inl [])
    fetch_first sort s ((key, slot) ∷ es) = for_key M T env opts s key >>= λ r. ok (names_of sort r)

    -- fetchForks; `sort` is slices.Sort on names.
    unfoldable pub fetch_forks : (List ForkName → List ForkName) → Buckets M T → Run Fetched
    unfolding fetch_first
    fetch_forks sort s = elim (last_bucket (T.entries s.tree)) [
      | some b ↦ ok (s, inl (sort (fork_names b.indexes)))
      | none ↦ fetch_first sort s (T.entries s.tree)
    ]

    -- The variables of loadAllBuckets' loop.
    pub record Listing : Type 0 where
      pub tree : T.Map
      pub trailers : Trailers
      pub expected_files : ℕ
      pub dirs_handled : ℕ

    -- A round of loadAllBuckets' loop, or none if the name of a directory ends it.
    unfoldable pub list_entry : Listing → DirEntry → Option Listing
    list_entry l (file true) = some (record l { expected_files = l.expected_files + 1 })
    list_entry l (file false) = some l
    list_entry l (dir none ts) = if opts.error_mode == error_mode_abort then none else some l
    list_entry l (dir (some key) ts) = some (record l {
      tree = T.set l.tree key none;
      trailers = add_trailers key ts l.trailers;
      dirs_handled = l.dirs_handled + 1;
    })

    abbrev pub list_next : (Listing → Option Listing) → Option Listing → Option Listing
    list_next again none = none
    list_next again (some l) = again l

    unfoldable pub list_entries : Listing → List DirEntry → Option Listing
    unfolding list_entry
    list_entries l [] = some l
    list_entries l (e ∷ es) = list_next (λ l'. list_entries l' es) (list_entry l e)

    abbrev pub with_forks : Fetched → Option (Buckets M T)
    with_forks (s, inr e) = none
    with_forks (s, inl forks) = some (record s { forks = forks })

    -- loadAllBuckets after its loop over a directory of `n` entries.
    unfoldable pub load_listed :
        (List ForkName → List ForkName)
        → (ℕ → Dir)
        → ℕ
        → Option Listing
        → Run (Option (Buckets M T))
    unfolding fetch_forks
    load_listed sort dirs n none = ok none
    load_listed sort dirs n (some l) =
        let fetched =
          fetch_forks sort
            (record { tree = l.tree; trailers = l.trailers; forks = []; dirs = dirs })
          >>= λ r. ok (with_forks r) in
        if l.dirs_handled == 0 && ltb l.expected_files n then ok none else fetched

    abbrev pub listing_start : Listing
    listing_start = record { tree = T.empty; trailers = []; expected_files = 0; dirs_handled = 0 }

    -- loadAllBuckets on a directory with these entries and files, or none for an error.
    unfoldable pub load_all :
        (List ForkName → List ForkName) → (ℕ → Dir) → List DirEntry → Run (Option (Buckets M T))
    unfolding list_entries load_listed
    load_all sort dirs ents = load_listed sort dirs (length ents) (list_entries listing_start ents)

    -- The loop of ValidateBucketKeys: whether every key is the key of its bucket.
    unfoldable pub keys_match : (ℕ → ℕ) → List (Entry M T) → Bool
    keys_match split [] = true
    keys_match split ((key, slot) ∷ es) = key == split key && keys_match split es

    -- ValidateBucketKeys, where split.conf holds `conf` between spaces, if it is there, and
    -- can be written or cannot.
    unfoldable pub validate_bucket_keys :
        Option (List ℕ) → Bool → List ℕ → (ℕ → ℕ) → Buckets M T → Bool
    unfolding keys_match
    validate_bucket_keys none written name split s = written && keys_match split (T.entries s.tree)
    validate_bucket_keys (some conf) written name split s =
        name_eq conf name && keys_match split (T.entries s.tree)

    -- What a call on a bucket returned, as a callback of iter returns it.
    abbrev pub changed :
        Buckets M T → ℕ → Bucket M × Option BucketError → Buckets M T × Unit {0} × Verdict
    changed s key (b, none) = (with_bucket M T env opts s key b, tt, goes_on)
    changed s key (b, some e) = (with_bucket M T env opts s key b, tt, fails (of_bucket e))

    abbrev pub put_forked : Buckets M T → ℕ → Dir × Bool → Buckets M T × Unit {0} × Verdict
    put_forked s key (d, done) =
        (record s { dirs = put_dir s.dirs key d }, tt, if done then goes_on else fails not_copied)

    -- Fork's callback, with the answers of the writes and of the copy for each bucket.
    unfoldable pub fork_entry :
        ForkName
        → ForkName
        → (ℕ → ℕ → WriteAnswer)
        → (ℕ → Bool)
        → Buckets M T
        → Unit {0}
        → ℕ
        → Option (Bucket M)
        → Run (Buckets M T × Unit {0} × Verdict)
    unfolding fork_offline
    fork_entry src dst ws copied s x key none =
        ok (put_forked s key (fork_offline (s.dirs key) src dst (copied key)))
    fork_entry src dst ws copied s x key (some b) =
        fork M b src dst (has_flag opts.sync_mode sync_index) (bytes ((s.dirs key).index_files dst))
          env.fuel (ws key)
        >>= λ r. ok (changed s key r)

    abbrev pub add_name :
        ForkName → Buckets M T × Unit {0} × Option TreeError → Buckets M T × Option TreeError
    add_name dst (s, x, some e) = (s, some e)
    add_name dst (s, x, none) = (record s { forks = s.forks ++ (dst ∷ []) }, none)

    -- Fork; `valid` is what Validate says of the name.
    unfoldable pub fork_all :
        ForkName
        → ForkName
        → Bool
        → (ℕ → ℕ → WriteAnswer)
        → (ℕ → Bool)
        → Buckets M T
        → Run (Buckets M T × Option TreeError)
    unfolding fork_entry
    fork_all src dst valid ws copied s =
        let forked = iter M T env opts include_nil (fork_entry src dst ws copied) s tt >>= λ r.
        ok (add_name dst r) in
        if not valid
        then ok (s, some bad_fork_name)
        else if contains s.forks dst
        then ok (s, none)
        else forked

    abbrev pub deleted_if_empty : Buckets M T × Option TreeError → Buckets M T × Unit {0} × Verdict
    deleted_if_empty (s, none) = (s, tt, goes_on)
    deleted_if_empty (s, some e) = (s, tt, fails e)

    -- RemoveFork's callback for a loaded bucket: a bucket that is empty now is deleted.
    abbrev pub after_remove :
        ForkName
        → Buckets M T
        → ℕ
        → Bucket M × Option BucketError
        → Buckets M T × Unit {0} × Verdict
    after_remove fork s key (b, some e) =
        (with_bucket M T env opts s key b, tt, fails (of_bucket e))
    after_remove fork s key (b, none) =
        let s' = record (with_bucket M T env opts s key b) {
          dirs = put_dir s.dirs key (put_file (s.dirs key) fork none);
        } in
        if all_empty M b
        then deleted_if_empty (delete_bucket M T env opts s' key)
        else (s', tt, goes_on)

    abbrev pub put_removed : Buckets M T → ℕ → Dir × Bool → Buckets M T × Unit {0} × Verdict
    put_removed s key (d, done) =
        (record s { dirs = put_dir s.dirs key d }, tt, if done then goes_on else fails not_removed)

    unfoldable pub remove_entry :
        ForkName
        → (ℕ → Option FileError)
        → (ℕ → Bool)
        → Buckets M T
        → Unit {0}
        → ℕ
        → Option (Bucket M)
        → Run (Buckets M T × Unit {0} × Verdict)
    unfolding remove_fork_offline
    remove_entry fork errs removed s x key none =
        ok (put_removed s key (remove_fork_offline (s.dirs key) fork (removed key)))
    remove_entry fork errs removed s x key (some b) =
        ok (after_remove fork s key (remove_fork M b fork (errs key)))

    -- RemoveFork
    unfoldable pub remove_fork_all :
        ForkName
        → Bool
        → (ℕ → Option FileError)
        → (ℕ → Bool)
        → Buckets M T
        → Run (Buckets M T × Option TreeError)
    unfolding remove_entry drop_name
    remove_fork_all fork valid errs removed s =
        let s' : Buckets M T = record s { forks = drop_name fork s.forks } in
        let done =
          iter M T env opts include_nil (remove_entry fork errs removed) s' tt >>= λ (s'', x, e).
          ok (s'', e) in
        if not valid then ok (s, some bad_fork_name) else done
