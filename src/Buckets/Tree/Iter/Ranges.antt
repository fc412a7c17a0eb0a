-- ===== src/Buckets/Tree/Iter/Ranges.antt =====
-- Delete and Push of buckets.go on the tree of buckets.
use timeq.Base.{
  ℕ, true, List, [], ◌∷◌, ◌++◌, Option, none, some, Run, ok, ◌>>=◌, ◌==◌, if◌then◌else◌, ◌⊎◌, inl,
  inr,
}
use timeq.Base.Words.{add64, lt_i64}
use timeq.Item.{Item, Location}
use timeq.Btree.{OrderedMap}
use timeq.Index.Codec.{FileError, WriteAnswer}
use timeq.Options.{Options, error_mode_abort}
use timeq.Bucket.{Bucket, BucketError, ForkName, to_before_from, push}
use timeq.Bucket.Forks.{all_empty}
use timeq.Bucket.Delete.{Deleted, delete_keys}
use timeq.Buckets.{BucketStore, push_sorted}
use timeq.Buckets.Tree.{Buckets, Env, Entry, TreeError, of_bucket, not_synced, no_bucket, for_key}
use timeq.Buckets.Tree.Deleting.{delete_bucket, clear_next}
use timeq.Buckets.Tree.Iter.{BucketCalls, with_bucket, index_errors}

module _ (M : OrderedMap (List Location)) (T : OrderedMap (Option (Bucket M))) (env : Env M T)
    (opts : Options) where
  -- The variables of Delete's loop.
  pub record Progress : Type 0 where
    pub state : Buckets M T
    pub num_deleted : ℕ
    pub deletable : List ℕ

  -- The error that the bucket's Delete returned.
  abbrev pub delete_failure : Option BucketError → List FileError → Option TreeError
  delete_failure (some e) errs = some (of_bucket e)
  delete_failure none [] = none
  delete_failure none (e ∷ errs) = some (not_synced (index_errors M (e ∷ errs)))

  -- A failure stops the loop in the abort mode only.
  abbrev pub unless_abort : Progress → TreeError → Progress × Option TreeError
  unless_abort p e = (p, if opts.error_mode == error_mode_abort then some e else none)

  -- The loop once the bucket's Delete returned.
  unfoldable pub after_delete :
      ℕ → Progress → Deleted M → Option TreeError → Progress × Option TreeError
  after_delete key p d (some e) =
      unless_abort (record p { state = with_bucket M T env opts p.state key d.bucket }) e
  after_delete key p d none = (
    record {
      state = with_bucket M T env opts p.state key d.bucket;
      num_deleted = add64 p.num_deleted d.ndeleted;
      deletable = if all_empty M d.bucket then p.deletable ++ (key ∷ []) else p.deletable;
    },
    none,
  )

  module _ (fuel : ℕ) (fork : ForkName) (from to : ℕ) (os : ℕ → BucketCalls) where
    -- The loop once forKey returned.
    unfoldable pub delete_in :
        ℕ → Progress → Buckets M T × (Bucket M ⊎ TreeError) → Run (Progress × Option TreeError)
    unfolding after_delete
    delete_in key p (s, inr e) = ok (unless_abort (record p { state = s }) e)
    delete_in key p (s, inl b) =
        delete_keys M fuel b fork from to (os key).writes (os key).synced >>= λ d.
        ok (after_delete key (record p { state = s }) d (delete_failure d.refused d.errs))

    abbrev pub delete_next :
        (Progress → Run (Progress × Option TreeError))
        → Progress × Option TreeError
        → Run (Progress × Option TreeError)
    delete_next again (p, some e) = ok (p, some e)
    delete_next again (p, none) = again p

    -- The loop of Delete from the first bucket that the iterator stands at; forKey adds no key.
    unfoldable pub delete_buckets :
        ℕ → List (Entry M T) → Progress → Run (Progress × Option TreeError)
    unfolding delete_in
    delete_buckets to_key [] p = ok (p, none)
    delete_buckets to_key ((key, slot) ∷ es) p =
        let deleted =
          for_key M T env opts p.state key
          >>= delete_in key p
          >>= delete_next (λ p'. delete_buckets to_key es p') in
        if lt_i64 to_key key then ok (p, none) else deleted

  -- Seek: the iterator's pairs from the first key that is not below `key`.
  unfoldable pub seek : ℕ → List (Entry M T) → List (Entry M T)
  seek key [] = []
  seek key ((k, slot) ∷ es) = if lt_i64 k key then seek key es else (k, slot) ∷ es

  -- The loop of Delete over the buckets that became empty.
  unfoldable pub drop_buckets : List ℕ → Buckets M T → Buckets M T × Option TreeError
  drop_buckets [] s = (s, none)
  drop_buckets (key ∷ keys) s =
      clear_next M T env opts (drop_buckets keys) (delete_bucket M T env opts s key)

  -- What Delete returns.
  abbrev pub Result : Type 0
  Result = Buckets M T × ℕ × Option TreeError

  abbrev pub counted : ℕ → Buckets M T × Option TreeError → Result
  counted n (s, e) = (s, n, e)

  abbrev pub delete_end : Progress × Option TreeError → Result
  delete_end (p, some e) = (p.state, p.num_deleted, some e)
  delete_end (p, none) = counted p.num_deleted (drop_buckets p.deletable p.state)

  -- Delete, with the options' split function.
  unfoldable pub delete_all :
      (ℕ → ℕ) → ℕ → ForkName → ℕ → ℕ → (ℕ → BucketCalls) → Buckets M T → Run Result
  unfolding delete_buckets seek drop_buckets
  delete_all split fuel fork from to os s =
      let found = seek (split from) (T.entries s.tree) in
      let deleted =
        delete_buckets fuel fork from to os (split to) found
          (record { state = s; num_deleted = 0; deletable = [] })
        >>= λ r. ok (delete_end r) in
      if lt_i64 to from then ok (s, 0, some (of_bucket to_before_from)) else deleted

  abbrev pub pushed :
      Buckets M T → ℕ → Bucket M × Option BucketError → Buckets M T × Option TreeError
  pushed s key (b, none) = (with_bucket M T env opts s key b, none)
  pushed s key (b, some e) = (with_bucket M T env opts s key b, some (of_bucket e))

  -- bucket.Push on the bucket that forKey returned, which the tree has.
  unfoldable pub push_found :
      (ForkName → WriteAnswer)
      → BucketCalls
      → Buckets M T
      → ℕ
      → List Item
      → Option (Option (Bucket M))
      → Run (Buckets M T × Option TreeError)
  push_found ws os s key items (some (some b)) =
      push M env.page_size b items true [] os.log ws >>= λ r. ok (pushed s key r)
  push_found ws os s key items found = ok (s, some no_bucket)

  abbrev pub opened_error : Buckets M T × (Bucket M ⊎ TreeError) → Buckets M T × Option TreeError
  opened_error (s, inl b) = (s, none)
  opened_error (s, inr e) = (s, some e)

  -- The tree of buckets as pushSorted uses it.
  abbrev pub tree_store :
      (ℕ → ForkName → WriteAnswer) → (ℕ → BucketCalls) → BucketStore (Buckets M T) TreeError
  tree_store ws os = record {
    for_key = λ s key. for_key M T env opts s key >>= λ r. ok (opened_error r);
    push = λ s key items. push_found (ws key) (os key) s key items (T.get s.tree key);
  }

  -- Push; `sort` is slices.SortFunc with the difference of the keys as an int.
  unfoldable pub push_all :
      (ℕ → ℕ)
      → (List Item → List Item)
      → (ℕ → ForkName → WriteAnswer)
      → (ℕ → BucketCalls)
      → Buckets M T
      → List Item
      → Run (Buckets M T × Option TreeError)
  push_all split sort ws os s [] = ok (s, none)
  push_all split sort ws os s (it ∷ items) =
      push_sorted (tree_store ws os) opts.error_mode split s (sort (it ∷ items))
