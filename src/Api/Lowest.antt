-- ===== src/Api/Lowest.antt =====
-- PopCopy of api.go: a queue, or a fork, of several buckets as one priority queue.
use mathlib.Core.Logic.{∥∥₁_map}
use timeq.Base.{
  ℕ, ◌-◌, ◌^◌, ◌<◌, ◌≡◌, ◌≢◌, ◌∙◌, ap, subst, Bool, true, false, List, [], ◌∷◌, Option, none, some,
  length, arith, All, Run, ok, ◌>>=◌, if◌then◌else◌,
}
use timeq.Base.Words.{rank, lt_i64}
use timeq.Item.{Location}
use timeq.Btree.{OrderedMap, IsOrderedMap, lookup}
use timeq.Btree.Pairs.{Ascending, lookup-each}
use timeq.Btree.Places.{some_injective, none_ne_some}
use timeq.Options.{Options}
use timeq.Index.Codec.{written}
use timeq.Bucket.{Bucket, ForkName}
use timeq.Bucket.Pop.{Callback}
use timeq.Bucket.Queue.{IsQueue}
use timeq.Buckets.Tree.{Buckets, Env, Entry, TreeError}
use timeq.Buckets.Tree.Iter.{BucketCalls, load, read_entry, iter_keys, iter, read_all}
use timeq.Api.{no_fork, Consumer, of_queue, of_fork, consumer_read, pop_copy, pop_fn}
use timeq.Api.Pops.{Popped, reads-Popped}
use timeq.Api.Shelves.{Shelf, entries_of, Parted, Apart, Stocked}

-- The name that a consumer passes on; a removed fork passes on none.
abbrev pub live_name : Consumer → Option ForkName
live_name of_queue = some []
live_name (of_fork f) = if f.q then some f.name else none

module _ (M : OrderedMap (List Location)) (laws : IsOrderedMap M)
    (T : OrderedMap (Option (Bucket M))) (tree_laws : IsOrderedMap T) (fork : ForkName) where
  -- Every bucket of the tree is loaded, and the fork holds the items of the shelf in it, fewer than
  -- 2 ^ 63; no item is lower than an item of a bucket before its own.
  pub record IsShelved (s : Buckets M T) (shelves : List (Shelf M)) : Type 0 where
    pub listed : T.entries s.tree ≡ entries_of M shelves
    pub ascending : Ascending (T.entries s.tree)
    pub queues :
        All (λ (sh : Shelf M). IsQueue M laws sh.1 fork sh.2 × (length sh.2 < 2 ^ 63)) shelves
    pub parted : Parted M shelves

  Ascending-Apart : (shelves : List (Shelf M)) → Ascending (entries_of M shelves) → Apart M shelves
  Ascending-Apart [] up = tt
  Ascending-Apart (sh ∷ shelves) up = (others shelves up.0, Ascending-Apart shelves up.1)
    where
      others :
          (rs : List (Shelf M))
          → All (λ (e : Entry M T). rank sh.0 < rank e.0) (entries_of M rs)
          → All (λ (r : Shelf M). rank r.0 ≢ rank sh.0) rs
      others [] h = tt
      others (r ∷ rs) h = ((λ e. omega (arith, e, h.0)), others rs h.1)

  Stocked-by :
      (s : Buckets M T) (shelves : List (Shelf M))
      → All (λ (e : Entry M T). lookup e.0 (T.entries s.tree) ≡ some e.1) (entries_of M shelves)
      → All (λ (sh : Shelf M). IsQueue M laws sh.1 fork sh.2 × (length sh.2 < 2 ^ 63)) shelves
      → Stocked M laws T tree_laws fork s shelves
  Stocked-by s [] h q = tt
  Stocked-by s (sh ∷ shelves) h q =
      ((tree_laws.get-lookup s.tree sh.0 ∙ h.0, q.0.0, q.0.1), Stocked-by s shelves h.1 q.1)

  module _ (env : Env M T) (opts : Options) (os : ℕ → BucketCalls) where
    abbrev without_count :
        {X : Type 0}
        → Run (Buckets M T × (ℕ × X) × Option TreeError)
        → Run (Buckets M T × X × Option TreeError)
    without_count r = r >>= λ (s', (count, x'), e). ok (s', x', e)

    consumer_read-live :
        {X : Type 0} (c : Consumer) (fn : Callback M X) (x : X) (n : ℕ) (s : Buckets M T)
        → live_name c ≡ some fork
        → consumer_read M T env opts c fn x os n s
          ≡ without_count (read_all M T env opts fork fn x os n s)
    unfolding consumer_read
    consumer_read-live of_queue fn x n s e =
        ap (λ f. without_count (read_all M T env opts f fn x os n s)) (some_injective e)
    consumer_read-live (of_fork f) fn x n s e = by_q f.q e
      where
        by_q :
            (t : Bool)
            → (if t then some f.name else none) ≡ some fork
            → (if t
                then without_count (read_all M T env opts f.name fn x os n s)
                else ok (s, x, some no_fork))
              ≡ without_count (read_all M T env opts fork fn x os n s)
        by_q true e =
            ap (λ f. without_count (read_all M T env opts f fn x os n s)) (some_injective e)
        by_q false e = absurd (none_ne_some e)

    module _ (c : Consumer) (live : live_name c ≡ some fork) (s : Buckets M T)
        (shelves : List (Shelf M)) (shelved : IsShelved s shelves)
        (all_close : (k : ℕ) → env.closes k ≡ true) (all_remove : (k : ℕ) → env.removes k ≡ true)
        (written_all : (key k : ℕ) → (os key).writes k ≡ written)
        (synced : (key : ℕ) → (os key).synced ≡ true) (n : ℕ) (pos : 0 < n)
        (small : n < 2 ^ 63) where
      -- PopCopy of n items, 0 < n < 2^63, on a queue all of whose buckets are loaded, or on a fork
      -- of it that is not removed. If the consumer holds some items in each bucket, fewer than
      -- 2^63, none of them lower than an item of a bucket before its own, and all writes, syncs,
      -- closes and removals of files succeed, then PopCopy returns no error and the lowest of
      -- these items, in order, n in number or all there are. Exactly the others are left in the
      -- buckets, and a bucket that is gone held none of them.
      pub pop_copy-Popped : ∥ (
          (p : Popped M laws T tree_laws fork env opts os s shelves n []) × (pop_copy M T env opts c
              os n s
            ≡ ok (p.state, p.taken, none))) ∥₁
      unfolding pop_copy read_all iter
      pop_copy-Popped =
          ∥∥₁_map
            (reads-Popped M laws T tree_laws fork env opts os all_close all_remove written_all
              synced shelves s n [] pos small shelved.ascending
              (Stocked-by s shelves
                (subst (All (λ (e : Entry M T). lookup e.0 (T.entries s.tree) ≡ some e.1))
                  shelved.listed (lookup-each (T.entries s.tree) shelved.ascending))
                shelved.queues)
              (Ascending-Apart shelves (subst Ascending shelved.listed shelved.ascending))
              shelved.parted)
            (λ p. (
              p,
              consumer_read-live c (pop_fn M) [] n s live
                  ∙ ap
                      (λ k. without_count (
                        iter_keys M T env opts load (read_entry M T env opts fork (pop_fn M) os)
                          (T.entries s.tree) s (k, [])))
                      whole_number
                  ∙ ap
                      (λ es. without_count (
                        iter_keys M T env opts load (read_entry M T env opts fork (pop_fn M) os) es
                          s (n, [])))
                      shelved.listed
                  ∙ ap without_count p.runs,
            ))
        where
          whole_number : (if lt_i64 n 0 then 2 ^ 63 - 1 else n) ≡ n
          whole_number = ground (arith, small)
