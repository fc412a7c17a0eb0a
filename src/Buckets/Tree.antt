-- ===== src/Buckets/Tree.antt =====
-- buckets.go: the tree of buckets, of which some are loaded. A bucket that is not loaded is known by
-- its trailers and stands in its directory; a map is a list of pairs in which the first pair of a
-- key counts. What openBucket leaves of the files when it fails is
-- not modelled.
pub mod Deleting
pub mod Closing
pub mod Lengths
pub mod Iter
pub mod Forking
pub mod Opened
use timeq.Base.{
  ℕ, zero, suc, ◌+◌, ◌-◌, ◌/◌, ◌%◌, Bool, true, false, not, ◌&&◌, ◌||◌, List, [], ◌∷◌, ◌++◌, Option,
  none, some, length, get_elem?, Run, ok, ◌>>=◌, ltb, leb, ◌==◌, if◌then◌else◌, ◌⊎◌, inl, inr,
}
use timeq.Base.Words.{add64, sub64, lt_i64}
use timeq.Item.{Location}
use timeq.Btree.{OrderedMap}
use timeq.Index.{Trailer}
use timeq.Options.{Options, error_mode_abort}
use timeq.Bucket.{Bucket, BucketIndex, ForkName, find_index, name_eq, BucketError}
use timeq.Bucket.Forks.{len, trailers}
use timeq.Bucket.Open.{BucketAnswers, OpenError, open_bucket}

pub data TreeError : Type 0 where
  not_opened : OpenError → TreeError
  -- The keys of the buckets that did not close.
  not_closed : List ℕ → TreeError
  no_bucket not_removed bad_fork_name not_copied : TreeError
  of_bucket : BucketError → TreeError
  joined : TreeError → TreeError → TreeError
  -- The errors of a Delete, or of a Sync.
  not_synced : List BucketError → TreeError

-- The map of trailers, by bucket and fork.
abbrev pub Trailers : Type 0
Trailers = List ((ℕ × ForkName) × Trailer)

unfoldable pub get_trailer : Trailers → ℕ → ForkName → Option Trailer
unfolding name_eq
get_trailer [] key fork = none
get_trailer (((k, f), t) ∷ ts) key fork =
    if k == key && name_eq f fork then some t else get_trailer ts key fork

-- closeUnused's callback on every fork of a bucket.
abbrev pub add_trailers : ℕ → List (ForkName × Trailer) → Trailers → Trailers
add_trailers key [] ts = ts
add_trailers key ((fork, t) ∷ rest) ts = ((key, fork), t) ∷ add_trailers key rest ts

-- The files in a bucket's directory: the log, empty if it is missing, and the index logs.
pub record Dir : Type 0 where
  pub log_file : List ℕ
  pub index_files : ForkName → Option (List ℕ)

-- Reading a file creates it where it is missing.
abbrev pub bytes : Option (List ℕ) → List ℕ
bytes none = []
bytes (some file) = file

-- `slices.Contains` on fork names.
unfoldable pub contains : List ForkName → ForkName → Bool
unfolding name_eq
contains [] fork = false
contains (f ∷ forks) fork = name_eq f fork || contains forks fork

-- The directories after a change of one.
abbrev pub put_dir : (ℕ → Dir) → ℕ → Dir → ℕ → Dir
put_dir dirs key d k = if k == key then d else dirs k

-- `realIdx` of closeUnused, if it is not negative: 4+0, 4-1, 4+1, 4-2, ... for a pivot of 4.
unfoldable pub real_idx : ℕ → ℕ → Option ℕ
real_idx pivot idx =
    if idx % 2 == 0
    then some (pivot + idx / 2)
    else if ltb pivot (idx / 2 + 1)
    then none
    else some (pivot - (idx / 2 + 1))

module _ (M : OrderedMap (List Location)) (T : OrderedMap (Option (Bucket M))) where
  pub record Buckets : Type 0 where
    pub tree : T.Map
    pub trailers : Trailers
    pub forks : List ForkName
    pub dirs : ℕ → Dir

  -- The page size, the rounds of WriteIndex, and what openBucket's and Close's system calls and the
  -- removal of a directory answer, for each bucket.
  pub record Env : Type 0 where
    pub page_size : ℕ
    pub fuel : ℕ
    pub calls : ℕ → List (BucketAnswers M)
    pub closes : ℕ → Bool
    pub removes : ℕ → Bool

  -- nil is a bucket that is not loaded.
  abbrev pub Entry : Type 0
  Entry = ℕ × Option (Bucket M)

  abbrev pub loaded_in : List Entry → ℕ
  loaded_in [] = 0
  loaded_in ((key, none) ∷ es) = loaded_in es
  loaded_in ((key, some b) ∷ es) = suc (loaded_in es)

  unfoldable pub nloaded : Buckets → ℕ
  nloaded s = loaded_in (T.entries s.tree)

  -- What Len adds for a bucket; a missing trailer is logged and counts nothing.
  abbrev pub trailer_len : Option Trailer → ℕ
  trailer_len none = 0
  trailer_len (some t) = t.total_entries

  abbrev pub entry_len : Trailers → ForkName → Entry → ℕ
  entry_len ts fork (key, none) = trailer_len (get_trailer ts key fork)
  entry_len ts fork (key, some b) = len M b fork

  abbrev pub entries_len : Trailers → ForkName → List Entry → ℕ
  entries_len ts fork [] = 0
  entries_len ts fork (e ∷ es) = add64 (entry_len ts fork e) (entries_len ts fork es)

  -- Len
  unfoldable pub fork_len : Buckets → ForkName → ℕ
  fork_len s fork = entries_len s.trailers fork (T.entries s.tree)

  abbrev pub file_or : Option (List ℕ) → Option (BucketIndex M) → Option (List ℕ)
  file_or old none = old
  file_or old (some idx) = some idx.log.file

  -- The files of a bucket, in a directory that may hold those of other forks.
  abbrev pub files_of : Dir → Bucket M → Dir
  files_of d b = record {
    log_file = b.log.mmap;
    index_files = λ fork. file_or (d.index_files fork) (find_index M b.indexes fork);
  }

  -- closeUnused's changes for one bucket.
  unfoldable pub close_bucket : Buckets → ℕ → Bucket M → Buckets
  close_bucket s key b = record s {
    tree = T.set s.tree key none;
    trailers = add_trailers key (trailers M b.indexes) s.trailers;
    dirs = put_dir s.dirs key (files_of (s.dirs key) b);
  }

  -- GetAt, which has no entry at a negative index.
  abbrev pub entry_at : List Entry → Option ℕ → Option Entry
  entry_at es none = none
  entry_at es (some i) = get_elem? es i

  -- forKey once openBucket returned.
  abbrev pub set_opened : Buckets → ℕ → Bucket M ⊎ OpenError → Buckets × (Bucket M ⊎ TreeError)
  set_opened s key (inr e) = (s, inr (not_opened e))
  set_opened s key (inl b) = (record s { tree = T.set s.tree key (some b) }, inl b)

  module _ (env : Env) (opts : Options) where
    -- `closeErrs` after a call of Close.
    abbrev pub close_error : ℕ → List ℕ → List ℕ
    close_error key errs =
        if not (env.closes key) && opts.error_mode == error_mode_abort
        then errs ++ (key ∷ [])
        else errs

    -- A round of closeUnused's loop; `again` makes the next rounds.
    abbrev pub close_entry :
        (Buckets → List ℕ → ℕ → Buckets × List ℕ)
        → Buckets
        → List ℕ
        → ℕ
        → Option Entry
        → Buckets × List ℕ
    close_entry again s errs nclosed none = again s errs nclosed
    close_entry again s errs nclosed (some (key, none)) = again s errs nclosed
    close_entry again s errs nclosed (some (key, some b)) =
        again (close_bucket s key b) (close_error key errs) (nclosed + 1)

    -- The rounds that are left: setting a key that the tree has does not change its length.
    unfoldable pub close_loop : ℕ → ℕ → ℕ → ℕ → Buckets → List ℕ → ℕ → Buckets × List ℕ
    unfolding real_idx close_bucket
    close_loop zero idx pivot nclosable s errs nclosed = (s, errs)
    close_loop (suc rounds) idx pivot nclosable s errs nclosed =
        let closed =
          close_entry (λ s' errs' n. close_loop rounds (idx + 1) pivot nclosable s' errs' n) s errs
            nclosed (entry_at (T.entries s.tree) (real_idx pivot idx)) in
        if ltb nclosed nclosable then closed else (s, errs)

    -- closeUnused, for an int pattern; the keys of the buckets whose Close failed.
    unfoldable pub close_unused : ℕ → Buckets → Buckets × List ℕ
    unfolding close_loop nloaded
    close_unused max_bucks s =
        let n = length (T.entries s.tree) in
        if lt_i64 max_bucks 0
        then (s, [])
        else if leb (nloaded s) max_bucks
        then (s, [])
        else close_loop n 0 (n / 2) (nloaded s - max_bucks) s [] 0

    -- forKey once closeUnused returned.
    unfoldable pub open_key : ℕ → Buckets × List ℕ → Run (Buckets × (Bucket M ⊎ TreeError))
    open_key key (s, k ∷ errs) = ok (s, inr (not_closed (k ∷ errs)))
    open_key key (s, []) =
        open_bucket M env.page_size env.fuel opts.sync_mode opts.error_mode (some key)
          (env.calls key) ((s.dirs key).log_file) (λ fork. bytes ((s.dirs key).index_files fork))
          s.forks
        >>= λ r. ok (set_opened s key r)

    -- forKey, by what the tree has at the key.
    unfoldable pub find_or_open :
        Buckets → ℕ → Option (Option (Bucket M)) → Run (Buckets × (Bucket M ⊎ TreeError))
    unfolding open_key close_unused
    find_or_open s key (some (some b)) = ok (s, inl b)
    find_or_open s key found =
        open_key key (close_unused (sub64 opts.max_parallel_open_buckets 1) s)

    unfoldable pub for_key : Buckets → ℕ → Run (Buckets × (Bucket M ⊎ TreeError))
    unfolding find_or_open
    for_key s key = find_or_open s key (T.get s.tree key)
