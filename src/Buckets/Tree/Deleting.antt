-- ===== src/Buckets/Tree/Deleting.antt =====
-- delete and clear of buckets.go, and removeBucketDir of bucket.go.
use timeq.Base.{ℕ, ◌||◌, List, [], ◌∷◌, Option, none, some, ◌==◌, if◌then◌else◌}
use timeq.Item.{Location}
use timeq.Btree.{OrderedMap}
use timeq.Options.{Options}
use timeq.Bucket.{Bucket, ForkName, name_eq}
use timeq.Buckets.Tree.{
  Buckets, Env, Entry, Dir, Trailers, TreeError, no_bucket, not_removed, not_closed, joined,
  put_dir, contains,
}

-- The loop of delete over the trailers.
unfoldable pub drop_trailers : ℕ → Trailers → Trailers
drop_trailers key [] = []
drop_trailers key (((k, f), t) ∷ ts) =
    if k == key then drop_trailers key ts else ((k, f), t) ∷ drop_trailers key ts

-- removeBucketDir, which knows the files of the forks that the queue has now and of the queue itself.
abbrev pub without_files : List ForkName → Dir → Dir
without_files forks d = record {
  log_file = [];
  index_files = λ fork. if name_eq [] fork || contains forks fork then none else d.index_files fork;
}

-- errors.Join of two errors.
abbrev pub join : Option TreeError → Option TreeError → Option TreeError
join none e = e
join (some d) none = some d
join (some d) (some e) = some (joined d e)

module _ (M : OrderedMap (List Location)) (T : OrderedMap (Option (Bucket M))) where
  module _ (env : Env M T) (opts : Options) where
    -- The errors of delete, joined.
    abbrev pub delete_error : ℕ → Option (Bucket M) → Option TreeError
    delete_error key none = if env.removes key then none else some not_removed
    delete_error key (some b) =
        join (if env.closes key then none else some (not_closed (key ∷ [])))
          (if env.removes key then none else some not_removed)

    unfoldable pub delete_found :
        Buckets M T → ℕ → Option (Option (Bucket M)) → Buckets M T × Option TreeError
    unfolding drop_trailers
    delete_found s key none = (s, some no_bucket)
    delete_found s key (some slot) = (
      record s {
        tree = T.delete s.tree key;
        trailers = drop_trailers key s.trailers;
        dirs = put_dir s.dirs key (without_files s.forks (s.dirs key));
      },
      delete_error key slot,
    )

    -- delete
    unfoldable pub delete_bucket : Buckets M T → ℕ → Buckets M T × Option TreeError
    unfolding delete_found
    delete_bucket s key = delete_found s key (T.get s.tree key)

    abbrev pub clear_next :
        (Buckets M T → Buckets M T × Option TreeError)
        → Buckets M T × Option TreeError
        → Buckets M T × Option TreeError
    clear_next again (s, some e) = (s, some e)
    clear_next again (s, none) = again s

    -- clear, for the keys that the tree had at its start.
    unfoldable pub clear_keys : List (Entry M T) → Buckets M T → Buckets M T × Option TreeError
    unfolding delete_bucket
    clear_keys [] s = (s, none)
    clear_keys ((key, slot) ∷ es) s = clear_next (clear_keys es) (delete_bucket s key)

    unfoldable pub clear : Buckets M T → Buckets M T × Option TreeError
    unfolding clear_keys
    clear s = clear_keys (T.entries s.tree) s
