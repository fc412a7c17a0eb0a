-- ===== src/Buckets/Tree/Iter.antt =====
-- iter of buckets.go, and the operations that go over the buckets: Sync, Close, Read, Delete and
-- Push. A callback of iter is a function on the state and the variables that it captures. The
-- callback of Read sees the bucket that it reads, and no other: its transaction is left out.
pub mod Ranges
pub mod Visits
use timeq.Base.{
  ℕ, zero, suc, ◌+◌, ◌-◌, ◌^◌, Bool, true, false, not, ◌&&◌, List, [], ◌∷◌, ◌++◌, Option, none,
  some, Run, ok, ◌>>=◌, ◌==◌, if◌then◌else◌, ◌⊎◌, inl, inr,
}
use timeq.Base.Words.{rank, add64, sub64, lt_i64, le_i64}
use timeq.Item.{Item, Location}
use timeq.Btree.{OrderedMap}
use timeq.Vlog.{PushAnswers}
use timeq.Vlog
use timeq.Index.Codec.{FileError, WriteAnswer}
use timeq.Index.Codec
use timeq.Options.{Options, error_mode_abort}
use timeq.Bucket.{Bucket, BucketIndex, BucketError, ForkName, log_error, index_error, push}
use timeq.Bucket.Forks.{len, all_empty}
use timeq.Bucket.Pop.{Callback, read}
use timeq.Buckets.Tree.{
  Buckets, Env, Entry, TreeError, of_bucket, not_synced, not_closed, no_bucket, for_key, put_dir,
  files_of,
}
use timeq.Buckets.Tree.Deleting.{delete_bucket, clear_next}

pub data IterMode : Type 0 where
  include_nil loaded_only load : IterMode

-- What a callback of iter returns: nil, errIterStop, or another error.
pub data Verdict : Type 0 where
  goes_on stops : Verdict
  fails : TreeError → Verdict

-- The answers of the system calls and writes of an operation on a bucket.
pub record BucketCalls : Type 0 where
  pub log : PushAnswers
  pub writes : ℕ → WriteAnswer
  pub synced : Bool

-- bucket.Sync joins the errors of the logs.
abbrev pub if_some {ℓ} : {A : Type ℓ} → Option A → List A
if_some none = []
if_some (some a) = a ∷ []

module _ (M : OrderedMap (List Location)) where
  unfoldable pub sync_indexes :
      List (ForkName × BucketIndex M) → Bool → (ForkName → Bool) → List FileError
  sync_indexes [] force synced = []
  sync_indexes ((name, idx) ∷ rest) force synced =
      if_some (Codec.sync idx.log force (synced name)) ++ sync_indexes rest force synced

  abbrev pub index_errors : List FileError → List BucketError
  index_errors [] = []
  index_errors (e ∷ es) = index_error e ∷ index_errors es

  abbrev log_errors : Option Vlog.LogError → List BucketError
  log_errors none = []
  log_errors (some e) = log_error e ∷ []

  -- Sync of bucket.go.
  unfoldable pub sync_bucket : Bucket M → Bool → PushAnswers → (ForkName → Bool) → List BucketError
  unfolding sync_indexes
  sync_bucket b force os synced =
      log_errors (Vlog.sync b.log force os) ++ index_errors (sync_indexes b.indexes force synced)

  module _ (T : OrderedMap (Option (Bucket M))) (env : Env M T) (opts : Options) where
    abbrev pub with_bucket : Buckets M T → ℕ → Bucket M → Buckets M T
    with_bucket s key b = record s { tree = T.set s.tree key (some b) }

    module _ {X : Type 0} (mode : IterMode)
        (fn : Buckets M T → X → ℕ → Option (Bucket M) → Run (Buckets M T × X × Verdict)) where
      abbrev pub after_fn :
          (Buckets M T → X → Run (Buckets M T × X × Option TreeError))
          → Buckets M T × X × Verdict
          → Run (Buckets M T × X × Option TreeError)
      after_fn again (s, x, goes_on) = again s x
      after_fn again (s, x, stops) = ok (s, x, none)
      after_fn again (s, x, fails e) = ok (s, x, some e)

      -- The callback on a bucket that forKey opened, or did not.
      abbrev pub after_open :
          (Buckets M T → X → Run (Buckets M T × X × Option TreeError))
          → X
          → ℕ
          → Buckets M T × (Bucket M ⊎ TreeError)
          → Run (Buckets M T × X × Option TreeError)
      after_open again x key (s, inr e) = ok (s, x, some e)
      after_open again x key (s, inl b) = fn s x key (some b) >>= after_fn again

      -- A bucket that is not loaded, by the mode.
      unfoldable pub visit_nil :
          IterMode
          → (Buckets M T → X → Run (Buckets M T × X × Option TreeError))
          → Buckets M T
          → X
          → ℕ
          → Run (Buckets M T × X × Option TreeError)
      visit_nil include_nil again s x key = fn s x key none >>= after_fn again
      visit_nil loaded_only again s x key = again s x
      visit_nil load again s x key = for_key M T env opts s key >>= after_open again x key

      -- A round of iter, by what the tree has at the key now; `again` makes the next rounds.
      unfoldable pub visit_key :
          (Buckets M T → X → Run (Buckets M T × X × Option TreeError))
          → Buckets M T
          → X
          → ℕ
          → Option (Option (Bucket M))
          → Run (Buckets M T × X × Option TreeError)
      unfolding visit_nil
      visit_key again s x key none = again s x
      visit_key again s x key (some (some b)) = fn s x key (some b) >>= after_fn again
      visit_key again s x key (some none) = visit_nil mode again s x key

      -- The loop of iter over the keys that the tree had at its start.
      unfoldable pub iter_keys :
          List (Entry M T) → Buckets M T → X → Run (Buckets M T × X × Option TreeError)
      unfolding visit_key
      iter_keys [] s x = ok (s, x, none)
      iter_keys ((key, slot) ∷ es) s x =
          visit_key (λ s' x'. iter_keys es s' x') s x key (T.get s.tree key)

      unfoldable pub iter : Buckets M T → X → Run (Buckets M T × X × Option TreeError)
      unfolding iter_keys
      iter s x = iter_keys (T.entries s.tree) s x

    -- Sync; `os` and `synced` are the answers for each bucket.
    abbrev pub sync_entry :
        (ℕ → PushAnswers)
        → (ℕ → ForkName → Bool)
        → Buckets M T
        → List BucketError
        → ℕ
        → Option (Bucket M)
        → Run (Buckets M T × List BucketError × Verdict)
    sync_entry os synced s errs key none = ok (s, errs, goes_on)
    sync_entry os synced s errs key (some b) =
        ok (s, errs ++ sync_bucket b true (os key) (synced key), goes_on)

    unfoldable pub sync_all :
        (ℕ → PushAnswers)
        → (ℕ → ForkName → Bool)
        → Buckets M T
        → Run (Buckets M T × List BucketError × Option TreeError)
    unfolding iter
    sync_all os synced s = iter loaded_only (sync_entry os synced) s []

    -- Close: the files stay as the buckets leave them.
    abbrev pub close_one :
        Buckets M T → Unit {0} → ℕ → Option (Bucket M) → Run (Buckets M T × Unit {0} × Verdict)
    close_one s x key none = ok (s, x, goes_on)
    close_one s x key (some b) = ok (
      record s { dirs = put_dir s.dirs key (files_of M T (s.dirs key) b) },
      x,
      if env.closes key then goes_on else fails (not_closed (key ∷ [])),
    )

    unfoldable pub close_all : Buckets M T → Run (Buckets M T × Unit {0} × Option TreeError)
    unfolding iter
    close_all s = iter loaded_only close_one s tt

    -- An int as the number of items of a bucket's Read, which returns at once for 0 and below.
    abbrev pub count_of : ℕ → ℕ
    count_of n = if lt_i64 n 0 then 0 else n

    -- The end of Read's callback: `count` is the number of items that are left to read, and `x`
    -- what the user's callback captures.
    abbrev pub count_read :
        {X : Type 0}
        → ForkName
        → ℕ
        → ℕ
        → Bucket M
        → X
        → Buckets M T × Option TreeError
        → Buckets M T × (ℕ × X) × Verdict
    count_read fork count len_before b x (s, some e) = (s, (count, x), fails e)
    count_read fork count len_before b x (s, none) =
        let left = sub64 count (sub64 len_before (len M b fork)) in
        (s, (left, x), if le_i64 left 0 then stops else goes_on)

    -- Read's callback once the bucket was read: an empty bucket is deleted.
    unfoldable pub after_read :
        {X : Type 0}
        → ForkName
        → ℕ
        → ℕ
        → Buckets M T
        → ℕ
        → Bucket M × X × Option BucketError
        → Buckets M T × (ℕ × X) × Verdict
    after_read fork count len_before s key (b, x, some e) = (
      with_bucket s key b,
      (count, x),
      if opts.error_mode == error_mode_abort then fails (of_bucket e) else goes_on,
    )
    after_read fork count len_before s key (b, x, none) =
        let s' = with_bucket s key b in
        count_read fork count len_before b x
          (if all_empty M b then delete_bucket M T env opts s' key else (s', none))

    unfoldable pub read_entry :
        {X : Type 0}
        → ForkName
        → Callback M X
        → (ℕ → BucketCalls)
        → Buckets M T
        → ℕ × X
        → ℕ
        → Option (Bucket M)
        → Run (Buckets M T × (ℕ × X) × Verdict)
    unfolding after_read
    read_entry fork cb os s (count, x) key none = ok (s, (count, x), goes_on)
    read_entry fork cb os s (count, x) key (some b) =
        read M b (count_of count) fork cb x (os key).writes (os key).synced >>= λ r.
        ok (after_read fork count (len M b fork) s key r)

    -- Read; the int `n` is the largest one if it is negative.
    unfoldable pub read_all :
        {X : Type 0}
        → ForkName
        → Callback M X
        → X
        → (ℕ → BucketCalls)
        → ℕ
        → Buckets M T
        → Run (Buckets M T × (ℕ × X) × Option TreeError)
    unfolding iter read_entry
    read_all fork cb x os n s =
        iter load (read_entry fork cb os) s ((if lt_i64 n 0 then 2 ^ 63 - 1 else n), x)
