-- ===== src/Buckets/Tree/Opened.antt =====
-- forKey of buckets.go: how many buckets are loaded after it, and a bucket closed and opened again.
use mathlib.Core.List.{append_assoc}
use timeq.Base.{
  ℕ, suc, ◌-◌, ◌^◌, ◌≤◌, ◌<◌, ◌≡◌, refl, sym, ◌∙◌, ap, subst, false, List, [], ◌∷◌, ◌++◌, Option,
  none, some, All-map, arith, if◌then◌else◌, leb, leb→le, ge→ltb, le→leb, eq→==, Bool-cases, ◌⊎◌,
  inl, inr, All, Run, ok, panic, out_of_fuel, ◌>>=◌,
}
use timeq.Base.Words.{rank, lt_i64, sub64}
use timeq.Item.{Location}
use timeq.Btree.{OrderedMap, IsOrderedMap, insert, lookup}
use timeq.Btree.Pairs.{Ascending, insert-Ascending}
use timeq.Options.{Options}
use timeq.Bucket.{Bucket, BucketIndex, ForkName, find_index, name_eq}
use timeq.Bucket.Names.{name_eq_refl}
use timeq.Bucket.Open.{BucketAnswers, OpenError, open_bucket}
use timeq.Bucket.Open.Again.{Distinct, Filed, IsReopenable, AllOpen, open_bucket-again}
use timeq.Buckets.Tree.{
  Buckets, Env, Entry, Dir, TreeError, bytes, files_of, file_or, loaded_in, nloaded, close_bucket,
  close_unused, set_opened, open_key, find_or_open, for_key,
}
use timeq.Buckets.Tree.Closing.Count.{close_unused-nloaded}
use timeq.Buckets.Tree.Closing.{close_unused-keeps, close_bucket-Ascending}

lookup-insert : {V : Type 0} (k : ℕ) (v : V) (es : List (ℕ × V)) → lookup k (insert k v es) ≡ some v
unfolding lookup insert
lookup-insert k v [] = ground arith
lookup-insert k v ((j, w) ∷ es) = ground (arith, lookup-insert k v es)

module _ (M : OrderedMap (List Location)) where
  find_index-here :
      (seen es : List (ForkName × BucketIndex M)) (name : ForkName) (idx : BucketIndex M)
      → find_index M seen name ≡ none
      → find_index M (seen ++ ((name, idx) ∷ es)) name ≡ some idx
  unfolding find_index
  find_index-here [] es name idx h = rw (name_eq_refl name) refl
  find_index-here ((other, old) ∷ seen) es name idx h = elim (Bool-cases (name_eq other name)) [
    | inl e ↦ absurd (cc (rw e at h))
    | inr e ↦ rw e (find_index-here seen es name idx (rw e at h))
  ]

  Distinct-found :
      (seen es : List (ForkName × BucketIndex M))
      → Distinct M seen es
      → All (λ (e : ForkName × BucketIndex M). find_index M (seen ++ es) e.0 ≡ some e.1) es
  Distinct-found seen [] d = tt
  Distinct-found seen ((name, idx) ∷ es) d = (
    find_index-here seen es name idx d.0,
    subst (λ all. All (λ (e : ForkName × BucketIndex M). find_index M all e.0 ≡ some e.1) es)
        (append_assoc seen ((name, idx) ∷ []) es)
        (Distinct-found (seen ++ ((name, idx) ∷ [])) es d.1),
  )

  module _ (T : OrderedMap (Option (Bucket M))) where
    -- The files that a bucket leaves are those of its indexes.
    files_of-Filed :
        (d : Dir) (b : Bucket M)
        → Distinct M [] b.indexes
        → Filed M (λ fork. bytes ((files_of M T d b).index_files fork)) b.indexes
    files_of-Filed d b h =
        All-map b.indexes (λ e p. ap (λ f. bytes (file_or M T (d.index_files e.0) f)) p)
          (Distinct-found [] b.indexes h)

    loaded_in-insert :
        (key : ℕ) (b : Bucket M) (es : List (Entry M T))
        → loaded_in M T (insert key (some b) es) ≤ suc (loaded_in M T es)
    unfolding insert
    loaded_in-insert key b [] = omega arith
    loaded_in-insert key b ((k, none) ∷ es) = ground (arith, loaded_in-insert key b es)
    loaded_in-insert key b ((k, some c) ∷ es) = ground (arith, loaded_in-insert key b es)

    -- The tree keeps its keys in order, and few buckets are loaded.
    record Few (n : ℕ) (s : Buckets M T) : Type 0 where
      ascending : Ascending (T.entries s.tree)
      few : nloaded M T s ≤ n

    abbrev state_of : Run (Buckets M T × (Bucket M ⊎ TreeError)) → Buckets M T → Buckets M T
    state_of (ok (s, r)) d = s
    state_of panic d = d
    state_of out_of_fuel d = d

    module _ (laws : IsOrderedMap T) where
      set_opened-Few :
          (n key : ℕ) (s : Buckets M T) (r : Bucket M ⊎ OpenError)
          → Few n s
          → Few (suc n) (set_opened M T s key r).0
      unfolding nloaded
      set_opened-Few n key s (inr e) f = record {
        ascending = f.ascending;
        few = omega (arith, f.few);
      }
      set_opened-Few n key s (inl b) f =
          let es = T.entries s.tree in
          let after = laws.entries-set s.tree key (some b) in
          record {
            ascending = subst Ascending (sym after) (insert-Ascending key (some b) es f.ascending);
            few = omega (arith, ap (loaded_in M T) after, loaded_in-insert key b es, f.few);
          }

      ended-Few :
          (n key : ℕ) (s d : Buckets M T) (o : Run (Bucket M ⊎ OpenError))
          → Few n s
          → Few (suc n) d
          → Few (suc n) (state_of (o >>= λ r. ok (set_opened M T s key r)) d)
      ended-Few n key s d (ok r) f g = set_opened-Few n key s r f
      ended-Few n key s d panic f g = g
      ended-Few n key s d out_of_fuel f g = g

      open_key-Few :
          (env : Env M T) (opts : Options) (n key : ℕ) (c : Buckets M T × List ℕ) (d : Buckets M T)
          → Few n c.0
          → Few (suc n) d
          → Few (suc n) (state_of (open_key M T env opts key c) d)
      unfolding open_key
      open_key-Few env opts n key (s, k ∷ errs) d f g = record {
        ascending = f.ascending;
        few = omega (arith, f.few);
      }
      open_key-Few env opts n key (s, []) d f g = ended-Few n key s d _ f g

      close_unused-Few :
          (env : Env M T) (opts : Options) (n : ℕ) (s : Buckets M T)
          → Ascending (T.entries s.tree)
          → n < 2 ^ 63
          → Few n (close_unused M T env opts n s).0
      close_unused-Few env opts n s up h = record {
        ascending =
            close_unused-keeps M T (λ s. Ascending (T.entries s.tree)) env opts n s
              (λ s' key b place up' e. close_bucket-Ascending M T laws s' key b up') up;
        few = elim (Bool-cases (leb (nloaded M T s) n)) [
          | inl few ↦
              subst (λ k. k ≤ n) (sym (counted ∙ ap (λ t. if t then nloaded M T s else n) few))
                (leb→le (nloaded M T s) n few)
          | inr many ↦ omega (arith, counted ∙ ap (λ t. if t then nloaded M T s else n) many)
        ];
      }
        where
          counted :
              nloaded M T (close_unused M T env opts n s).0
              ≡ (if leb (nloaded M T s) n then nloaded M T s else n)
          counted = close_unused-nloaded M T laws env opts n s up h

      opened-Few :
          (env : Env M T) (opts : Options) (key : ℕ) (s : Buckets M T)
          → Few opts.max_parallel_open_buckets s
          → 0 < opts.max_parallel_open_buckets
          → opts.max_parallel_open_buckets < 2 ^ 63
          → Few opts.max_parallel_open_buckets (
              state_of
                (open_key M T env opts key
                  (close_unused M T env opts (sub64 opts.max_parallel_open_buckets 1) s))
                s)
      opened-Few env opts key s f lo hi =
          let n : ℕ = opts.max_parallel_open_buckets - 1 in
          let less : n ≡ sub64 opts.max_parallel_open_buckets 1 = omega (arith, lo, hi) in
          let next : suc n ≡ opts.max_parallel_open_buckets = omega (arith, lo) in
          subst
            (λ m. Few m (
              state_of
                (open_key M T env opts key
                  (close_unused M T env opts (sub64 opts.max_parallel_open_buckets 1) s))
                s))
            next
            (subst
              (λ k.
                Few (suc n)
                  (state_of (open_key M T env opts key (close_unused M T env opts k s)) s))
              less
              (open_key-Few env opts n key (close_unused M T env opts n s) s
                (close_unused-Few env opts n s f.ascending (omega (arith, hi)))
                (subst (λ m. Few m s) (sym next) f)))

      find_or_open-Few :
          (env : Env M T) (opts : Options) (key : ℕ) (s : Buckets M T)
          (found : Option (Option (Bucket M)))
          → Few opts.max_parallel_open_buckets s
          → 0 < opts.max_parallel_open_buckets
          → opts.max_parallel_open_buckets < 2 ^ 63
          → Few opts.max_parallel_open_buckets (state_of (find_or_open M T env opts s key found) s)
      unfolding find_or_open
      find_or_open-Few env opts key s (some (some b)) f lo hi = f
      find_or_open-Few env opts key s (some none) f lo hi = opened-Few env opts key s f lo hi
      find_or_open-Few env opts key s none f lo hi = opened-Few env opts key s f lo hi

      -- If no more buckets are loaded than MaxParallelOpenBuckets, a number from 1 to 2^63 - 1,
      -- then no more are after forKey returned, with a bucket or an error.
      pub for_key-nloaded :
          (env : Env M T) (opts : Options) (key : ℕ) (s s' : Buckets M T) (r : Bucket M ⊎ TreeError)
          → Ascending (T.entries s.tree)
          → nloaded M T s ≤ opts.max_parallel_open_buckets
          → 0 < opts.max_parallel_open_buckets
          → opts.max_parallel_open_buckets < 2 ^ 63
          → for_key M T env opts s key ≡ ok (s', r)
          → Ascending (T.entries s'.tree) × (nloaded M T s' ≤ opts.max_parallel_open_buckets)
      unfolding for_key
      for_key-nloaded env opts key s s' r up few lo hi e =
          let kept =
            find_or_open-Few env opts key s (T.get s.tree key)
              (record { ascending = up; few = few }) lo hi in
          let after : Few opts.max_parallel_open_buckets s' =
            subst (λ o. Few opts.max_parallel_open_buckets (state_of o s)) e kept in
          (after.ascending, after.few)

      reopened :
          (s : Buckets M T) (key : ℕ) (b : Bucket M)
          → T.get (close_bucket M T s key b).tree key ≡ some none
      unfolding close_bucket
      reopened s key b =
          laws.get-lookup (T.set s.tree key none) key
          ∙ ap (lookup key) (laws.entries-set s.tree key none)
          ∙ lookup-insert key none (T.entries s.tree)

      closed_dir :
          (s : Buckets M T) (key : ℕ) (b : Bucket M)
          → (close_bucket M T s key b).dirs key ≡ files_of M T (s.dirs key) b
      unfolding close_bucket
      closed_dir s key b = rw (eq→== key key refl) refl

      not_full :
          (env : Env M T) (opts : Options) (s : Buckets M T) (n : ℕ)
          → nloaded M T s ≤ n
          → n < 2 ^ 63
          → close_unused M T env opts n s ≡ (s, [])
      unfolding close_unused
      not_full env opts s n le h =
          let positive : lt_i64 n 0 ≡ false = ge→ltb (rank n) (rank 0) (omega (arith, h)) in
          rw (positive, le→leb (nloaded M T s) n le) refl

      -- A bucket that closeUnused closes and forKey opens again is the bucket that it was, if its
      -- files hold all that openBucket needs, the calls succeed, and fewer buckets are loaded than
      -- may be.
      pub close_bucket-for_key :
          (env : Env M T) (opts : Options) (s : Buckets M T) (b : Bucket M) (os : BucketAnswers M)
          (calls : List (BucketAnswers M))
          → IsReopenable M opts.sync_mode s.forks b
          → b.error_mode ≡ opts.error_mode
          → env.calls b.key ≡ os ∷ calls
          → AllOpen M os
          → nloaded M T (close_bucket M T s b.key b) < opts.max_parallel_open_buckets
          → opts.max_parallel_open_buckets < 2 ^ 63
          → for_key M T env opts (close_bucket M T s b.key b) b.key
            ≡ ok (
              record (close_bucket M T s b.key b) {
                tree = T.set (close_bucket M T s b.key b).tree b.key (some b);
              },
              inl b,
            )
      unfolding for_key find_or_open open_key close_bucket
      close_bucket-for_key env opts s b os calls r mode answers opens room hi =
          let c : Buckets M T = close_bucket M T s b.key b in
          let n : ℕ = sub64 opts.max_parallel_open_buckets 1 in
          let run = λ (mode : ℕ) (cs : List (BucketAnswers M)) (d : Dir).
            open_bucket M env.page_size env.fuel opts.sync_mode mode (some b.key) cs d.log_file
              (λ fork. bytes (d.index_files fork)) s.forks
            >>= λ r. ok (set_opened M T c b.key r) in
          ap (find_or_open M T env opts c b.key) (reopened s b.key b)
          ∙ ap (open_key M T env opts b.key)
              (not_full env opts c n (omega (arith, room, hi)) (omega (arith, room, hi)))
          ∙ ap (λ d. run opts.error_mode (env.calls b.key) d) (closed_dir s b.key b)
          ∙ (λ i. run (sym mode i) (answers i) (files_of M T (s.dirs b.key) b))
          ∙ ap (λ o. o >>= λ r. ok (set_opened M T c b.key r))
              (open_bucket-again M env.page_size env.fuel opts.sync_mode b s.forks
                (λ fork. bytes ((files_of M T (s.dirs b.key) b).index_files fork)) os calls r
                (files_of-Filed (s.dirs b.key) b r.distinct) opens)
