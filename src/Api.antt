-- ===== src/Api.antt =====
-- api.go: the methods of Queue and Fork, PopCopy and PeekCopy. A Queue is its buckets. The
-- transaction that a callback gets is left out.
pub mod Steps
pub mod Shelves
pub mod Pops
pub mod Lowest
pub mod Removed
use timeq.Base.{
  ℕ, Bool, true, false, List, [], ◌∷◌, ◌++◌, Option, none, some, Run, ok, panic, ◌>>=◌,
  if◌then◌else◌, ◌⊎◌, inl, inr,
}
use timeq.Item.{Item, Location, items_copy}
use timeq.Btree.{OrderedMap}
use timeq.Vlog.{PushAnswers}
use timeq.Index.Codec.{FileError, WriteAnswer}
use timeq.Options.{Options, OptionsError, Validated, valid, invalid, validate}
use timeq.Bucket.{Bucket, BucketError, ForkName, no_such_fork}
use timeq.Bucket.Pop.{Callback, read_op_pop, read_op_peek}
use timeq.Buckets.Tree.{Buckets, Env, Dir, TreeError, of_bucket, fork_len}
use timeq.Buckets.Tree.Deleting.{clear}
use timeq.Buckets.Tree.Iter.{BucketCalls, sync_all, close_all, read_all}
use timeq.Buckets.Tree.Iter.Ranges.{push_all, delete_all}
use timeq.Buckets.Tree.Forking.{fork_all, remove_fork_all, load_all, validate_bucket_keys, DirEntry}

-- A Fork; `q` is false once the pointer to the queue is nil.
pub record Fork : Type 0 where
  pub name : ForkName
  pub q : Bool

-- What implements the interface Consumer.
pub data Consumer : Type 0 where
  of_queue : Consumer
  of_fork : Fork → Consumer

abbrev pub no_fork : TreeError
no_fork = of_bucket no_such_fork

pub data OpenFailed : Type 0 where
  bad_options : OptionsError → OpenFailed
  not_loaded bad_split : OpenFailed

module _ (M : OrderedMap (List Location)) where
  -- The callbacks of PopCopy and PeekCopy: they append a copy of the items.
  unfoldable pub pop_fn : Callback M (List Item)
  pop_fn b items popped = items_copy popped >>= λ copied. ok (b, items ++ copied, inl read_op_pop)

  unfoldable pub peek_fn : Callback M (List Item)
  peek_fn b items popped = items_copy popped >>= λ copied. ok (b, items ++ copied, inl read_op_peek)

module _ (M : OrderedMap (List Location)) (T : OrderedMap (Option (Bucket M))) where
  -- Len
  abbrev pub queue_len : Buckets M T → ℕ
  queue_len s = fork_len M T s []

  unfoldable pub consumer_len : Consumer → Buckets M T → ℕ
  consumer_len of_queue s = queue_len s
  consumer_len (of_fork f) s = if f.q then fork_len M T s f.name else 0

  module _ (env : Env M T) (opts : Options) where
    -- Queue.Fork and Fork.Fork: the new fork, if there is no error. The pointer of a Fork is not
    -- tested.
    abbrev pub forked : ForkName → Buckets M T × Option TreeError → Buckets M T × (Fork ⊎ TreeError)
    forked name (s, some e) = (s, inr e)
    forked name (s, none) = (s, inl (record { name = name; q = true }))

    unfoldable pub consumer_fork :
        Consumer
        → ForkName
        → Bool
        → (ℕ → ℕ → WriteAnswer)
        → (ℕ → Bool)
        → Buckets M T
        → Run (Buckets M T × (Fork ⊎ TreeError))
    consumer_fork of_queue name allowed ws copied s =
        fork_all M T env opts [] name allowed ws copied s >>= λ r. ok (forked name r)
    consumer_fork (of_fork f) name allowed ws copied s =
        let done =
          fork_all M T env opts f.name name allowed ws copied s >>= λ r. ok (forked name r) in
        if f.q then done else panic

    -- Remove: the fork is marked as deleted first.
    unfoldable pub fork_remove :
        Fork
        → Bool
        → (ℕ → Option FileError)
        → (ℕ → Bool)
        → Buckets M T
        → Run (Fork × Buckets M T × Option TreeError)
    fork_remove f allowed errs removed s =
        let done = remove_fork_all M T env opts f.name allowed errs removed s >>= λ (s', e).
        ok (record f { q = false }, s', e) in
        if f.q then done else ok (f, s, some no_fork)

    unfoldable pub consumer_read :
        {X : Type 0}
        → Consumer
        → Callback M X
        → X
        → (ℕ → BucketCalls)
        → ℕ
        → Buckets M T
        → Run (Buckets M T × X × Option TreeError)
    consumer_read of_queue fn x os n s =
        read_all M T env opts [] fn x os n s >>= λ (s', (count, x'), e). ok (s', x', e)
    consumer_read (of_fork f) fn x os n s =
        let done =
          read_all M T env opts f.name fn x os n s >>= λ (s', (count, x'), e). ok (s', x', e) in
        if f.q then done else ok (s, x, some no_fork)

    unfoldable pub consumer_delete :
        Consumer
        → (ℕ → ℕ)
        → ℕ
        → ℕ
        → ℕ
        → (ℕ → BucketCalls)
        → Buckets M T
        → Run (Buckets M T × ℕ × Option TreeError)
    consumer_delete of_queue split fuel from to os s =
        delete_all M T env opts split fuel [] from to os s
    consumer_delete (of_fork f) split fuel from to os s =
        let done = delete_all M T env opts split fuel f.name from to os s in
        if f.q then done else ok (s, 0, some no_fork)

    unfoldable pub pop_copy :
        Consumer
        → (ℕ → BucketCalls)
        → ℕ
        → Buckets M T
        → Run (Buckets M T × List Item × Option TreeError)
    unfolding consumer_read pop_fn
    pop_copy c os n s = consumer_read c (pop_fn M) [] os n s

    unfoldable pub peek_copy :
        Consumer
        → (ℕ → BucketCalls)
        → ℕ
        → Buckets M T
        → Run (Buckets M T × List Item × Option TreeError)
    unfolding consumer_read peek_fn
    peek_copy c os n s = consumer_read c (peek_fn M) [] os n s

  -- Open once the options are tested: the buckets are loaded, and their keys are tested. A function
  -- that is nil would panic.
  abbrev pub keys_tested : (Buckets M T → Bool) → Option (Buckets M T) → Buckets M T ⊎ OpenFailed
  keys_tested tested none = inr not_loaded
  keys_tested tested (some s) = if tested s then inl s else inr bad_split

  abbrev pub open_with :
      Env M T
      → (List ForkName → List ForkName)
      → (ℕ → Dir)
      → List DirEntry
      → Option (List ℕ)
      → Bool
      → List ℕ
      → Validated
      → Run (Buckets M T ⊎ OpenFailed)
  open_with env sort dirs ents conf written name (invalid e) = ok (inr (bad_options e))
  open_with env sort dirs ents conf written name (valid o) = elim o.split [
    | none ↦ panic
    | some split ↦
        (load_all M T env o sort dirs ents >>= λ r.
        ok (keys_tested (validate_bucket_keys M T env o conf written name split) r))
  ]

  -- Open
  unfoldable pub open_queue :
      Env M T
      → Options
      → (List ForkName → List ForkName)
      → (ℕ → Dir)
      → List DirEntry
      → Option (List ℕ)
      → Bool
      → List ℕ
      → Run (Buckets M T ⊎ OpenFailed)
  unfolding validate
  open_queue env opts sort dirs ents conf written name =
      open_with env sort dirs ents conf written name (validate opts)
