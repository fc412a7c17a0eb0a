-- ===== src/Api/Removed.antt =====
-- Fork of api.go after Remove.
use timeq.Base.{
  ℕ, ◌≡◌, refl, Bool, true, false, List, Option, some, Run, ok, panic, ◌>>=◌, if◌then◌else◌, Ends,
  out_of_fuel, sym, subst,
}
use timeq.Item.{Item, Location}
use timeq.Btree.{OrderedMap}
use timeq.Index.Codec.{FileError, WriteAnswer}
use timeq.Options.{Options}
use timeq.Bucket.{Bucket, ForkName}
use timeq.Bucket.Pop.{Callback}
use timeq.Buckets.Tree.{Buckets, Env, TreeError}
use timeq.Buckets.Tree.Forking.{remove_fork_all}
use timeq.Buckets.Tree.Iter.{BucketCalls}
use timeq.Api.{
  Fork, of_fork, no_fork, fork_remove, consumer_read, consumer_delete, consumer_len, consumer_fork,
}

module _ (M : OrderedMap (List Location)) (T : OrderedMap (Option (Bucket M))) (env : Env M T)
    (opts : Options) where
  -- Read, Delete and Remove return ErrNoSuchFork and leave the buckets as they are, Len is 0, and
  -- Fork panics.
  pub record IsGone (f : Fork) : Type 0 where
    pub reads :
        (fn : Callback M (List Item)) (x : List Item) (os : ℕ → BucketCalls) (n : ℕ)
        (s : Buckets M T)
        → consumer_read M T env opts (of_fork f) fn x os n s ≡ ok (s, x, some no_fork)
    pub deletes :
        (split : ℕ → ℕ) (fuel from to : ℕ) (os : ℕ → BucketCalls) (s : Buckets M T)
        → consumer_delete M T env opts (of_fork f) split fuel from to os s ≡ ok (s, 0, some no_fork)
    pub removes :
        (allowed : Bool) (errs : ℕ → Option FileError) (removed : ℕ → Bool) (s : Buckets M T)
        → fork_remove M T env opts f allowed errs removed s ≡ ok (f, s, some no_fork)
    pub counts : (s : Buckets M T) → consumer_len M T (of_fork f) s ≡ 0
    pub forks :
        (name : ForkName) (allowed : Bool) (ws : ℕ → ℕ → WriteAnswer) (copied : ℕ → Bool)
        (s : Buckets M T)
        → consumer_fork M T env opts (of_fork f) name allowed ws copied s ≡ panic

  gone : (name : ForkName) → IsGone (record { name = name; q = false })
  unfolding consumer_read consumer_delete fork_remove consumer_len consumer_fork
  gone name = record {
    reads = λ fn x os n s. refl;
    deletes = λ split fuel from to os s. refl;
    removes = λ allowed errs removed s. refl;
    counts = λ s. refl;
    forks = λ name allowed ws copied s. refl;
  }

  removal :
      (name : ForkName) (o : Run (Buckets M T × Option TreeError))
      → Ends
          (λ (r : Fork × Buckets M T × Option TreeError). IsGone r.0)
          (o >>= λ (s, e). ok (record { name = name; q = false }, s, e))
  removal name (ok (s, e)) = gone name
  removal name panic = tt
  removal name out_of_fuel = tt

  -- After Remove of a Fork has returned, with an error or without one, every Read, Delete and
  -- Remove of the Fork returns ErrNoSuchFork and leaves the buckets as they are, Len is 0, and
  -- Fork panics.
  pub fork_remove-IsGone :
      (f : Fork) (allowed : Bool) (errs : ℕ → Option FileError) (removed : ℕ → Bool)
      (s : Buckets M T)
      → Ends
          (λ (r : Fork × Buckets M T × Option TreeError). IsGone r.0)
          (fork_remove M T env opts f allowed errs removed s)
  unfolding fork_remove
  fork_remove-IsGone f allowed errs removed s = by_q f.q refl
    where
      by_q :
          (t : Bool)
          → f.q ≡ t
          → Ends
              (λ (r : Fork × Buckets M T × Option TreeError). IsGone r.0)
              (if t
                then (remove_fork_all M T env opts f.name allowed errs removed s >>= λ (s', e).
                    ok (record f { q = false }, s', e))
                else ok (f, s, some no_fork))
      by_q true e = removal f.name (remove_fork_all M T env opts f.name allowed errs removed s)
      by_q false e = subst IsGone (λ i. record { name = f.name; q = sym e i }) (gone f.name)
