-- ===== src/Api/Pops.antt =====
-- PopCopy of api.go over the loaded buckets of the tree, one after the other.
use mathlib.Core.Logic.{∥∥₁_map, ∥∥₁_elim, ∥∥₁_prop}
use mathlib.Core.List.{Perm, append_assoc, append-nil}
use mathlib.Core.List.Perm
use timeq.Base.{
  ℕ, zero, suc, ◌-◌, ◌^◌, ◌≤◌, ◌<◌, ◌≡◌, ◌≢◌, refl, sym, ◌∙◌, ap, subst, true, List, [], ◌∷◌, ◌++◌,
  map, Option, none, some, length, length-append, arith, All, All-append, All-append_inv, All-map,
  Run, ok, ◌>>=◌, ltb, if◌then◌else◌, Bool-cases, ◌⊎◌, inl, inr,
}
use timeq.Base.Words.{rank, le_i64}
use timeq.Item.{Item, Location}
use timeq.Item.Order.{Below, Ordered, Below-perm}
use timeq.Btree.{OrderedMap, IsOrderedMap}
use timeq.Btree.Pairs.{Ascending}
use timeq.Options.{Options}
use timeq.Index.Codec.{written}
use timeq.Bucket.{Bucket, ForkName}
use timeq.Bucket.Queue.{IsQueue}
use timeq.Buckets.Tree.{Buckets, Env, TreeError}
use timeq.Buckets.Tree.Iter.{
  BucketCalls, Verdict, goes_on, stops, load, read_entry, iter_keys, visit_key, after_fn,
}
use timeq.Api.{pop_fn}
use timeq.Api.Steps.{Leaves, Step, read-Step}
use timeq.Api.Shelves.{
  Ordered-append, no_more, some_more, Shelf, stock, shelf_keys, entries_of, Parted, Apart,
  leftovers, untouched, leftovers-untouched, keys-untouched, taken-Below, Stocked, Stocked-others,
  Leaves-same, Stocked-Leaves,
}

module _ (M : OrderedMap (List Location)) (laws : IsOrderedMap M)
    (T : OrderedMap (Option (Bucket M))) (tree_laws : IsOrderedMap T) (fork : ForkName) where
  module _ (env : Env M T) (opts : Options) (os : ℕ → BucketCalls) where
    abbrev reads :
        List (Shelf M)
        → Buckets M T
        → ℕ × List Item
        → Run (Buckets M T × (ℕ × List Item) × Option TreeError)
    reads shelves s x =
        iter_keys M T env opts load (read_entry M T env opts fork (pop_fn M) os)
          (entries_of M shelves) s x

    abbrev read_on :
        List (Shelf M)
        → Buckets M T × (ℕ × List Item) × Verdict
        → Run (Buckets M T × (ℕ × List Item) × Option TreeError)
    read_on shelves r =
        after_fn M T env opts load (read_entry M T env opts fork (pop_fn M) os)
          (λ s x. reads shelves s x) r

    reads-bucket :
        (sh : Shelf M) (shelves : List (Shelf M)) (s : Buckets M T) (x : ℕ × List Item)
        → T.get s.tree sh.0 ≡ some (some sh.1)
        → reads (sh ∷ shelves) s x
          ≡ (read_entry M T env opts fork (pop_fn M) os s x sh.0 (some sh.1) >>= read_on shelves)
    unfolding iter_keys visit_key
    reads-bucket sh shelves s x e =
        ap
          (visit_key M T env opts load (read_entry M T env opts fork (pop_fn M) os)
            (λ s x. reads shelves s x) s x sh.0)
          e

    -- What the loop over the buckets does.
    pub record Popped (s : Buckets M T) (shelves : List (Shelf M)) (n : ℕ) (acc : List Item)
        : Type 0 where
      pub taken : List Item
      pub rests : List (ℕ × List Item)
      pub state : Buckets M T
      pub count : ℕ
      pub runs : reads shelves s (n, acc) ≡ ok (state, (count, acc ++ taken), none)
      pub keys : map (λ (r : ℕ × List Item). r.0) rests ≡ shelf_keys M shelves
      pub leaves : All (λ (r : ℕ × List Item). Leaves M laws T tree_laws fork state r.0 r.1) rests
      pub whole : Perm (taken ++ leftovers M rests) (stock M shelves)
      pub ordered : Ordered taken
      pub lowest : All (λ x. Below x (leftovers M rests)) taken
      pub enough : (length taken ≡ n) ⊎ (leftovers M rests ≡ [])
      pub most : length taken ≤ n
      pub others :
          (j : ℕ)
          → All (λ (sh : Shelf M). rank sh.0 ≢ rank j) shelves
          → T.get state.tree j ≡ T.get s.tree j

    Popped-none : (s : Buckets M T) (n : ℕ) (acc : List Item) → Popped s [] n acc
    unfolding iter_keys
    Popped-none s n acc = record {
      taken = [];
      rests = [];
      state = s;
      count = n;
      runs = λ i. ok (s, (n, sym (append-nil acc) i), none);
      keys = refl;
      leaves = tt;
      whole = Perm.refl [];
      ordered = tt;
      lowest = tt;
      enough = inr refl;
      most = omega arith;
      others = λ j h. refl;
    }

    module _ (s : Buckets M T) (sh : Shelf M) (shelves : List (Shelf M)) (n : ℕ) (acc : List Item)
        (all_close : (k : ℕ) → env.closes k ≡ true) (all_remove : (k : ℕ) → env.removes k ≡ true)
        (up : Ascending (T.entries s.tree))
        (st : Step M laws T tree_laws fork env opts s sh.0 up all_close all_remove sh.1 sh.2 acc n
          os)
        (stocked : Stocked M laws T tree_laws fork s (sh ∷ shelves))
        (apart : Apart M (sh ∷ shelves)) (parted : Parted M (sh ∷ shelves))
        (small : n < 2 ^ 63) where
      low : All (λ x. Below x (stock M shelves)) st.taken
      low = taken-Below M st.taken st.rest sh.2 (stock M shelves) st.whole parted.0

      step_runs :
          (v : Verdict)
          → (if le_i64 (n - length st.taken) 0 then stops else goes_on) ≡ v
          → reads (sh ∷ shelves) s (n, acc)
            ≡ read_on shelves (st.state, (n - length st.taken, acc ++ st.taken), v)
      step_runs v e =
          reads-bucket sh shelves s (n, acc) stocked.0.0
          ∙ ap (λ r. r >>= read_on shelves) st.runs
          ∙ ap (λ v. read_on shelves (st.state, (n - length st.taken, acc ++ st.taken), v)) e

      -- The bucket had enough.
      Popped-stops : n ≤ length st.taken → Popped s (sh ∷ shelves) n acc
      Popped-stops h = record {
        taken = st.taken;
        rests = (sh.0, st.rest) ∷ untouched M shelves;
        state = st.state;
        count = n - length st.taken;
        runs =
            step_runs stops
              (ap (λ t. if t then stops else goes_on) (no_more n (length st.taken) h));
        keys = ap (◌∷◌ sh.0) (keys-untouched M shelves);
        leaves = (
          st.leaves,
          Stocked-Leaves M laws T tree_laws fork st.state shelves (
              Stocked-others M laws T tree_laws fork s st.state sh.0 shelves st.others apart.0
                stocked.1),
        );
        whole =
            subst (λ xs. Perm (st.taken ++ (st.rest ++ xs)) (stock M (sh ∷ shelves)))
              (sym (leftovers-untouched M shelves))
              (subst (λ xs. Perm xs (stock M (sh ∷ shelves)))
                (append_assoc st.taken st.rest (stock M shelves))
                (Perm.append st.whole (Perm.refl (stock M shelves))));
        ordered = st.ordered;
        lowest =
            subst (λ xs. All (λ x. Below x (st.rest ++ xs)) st.taken)
              (sym (leftovers-untouched M shelves)) (both st.taken st.lowest low);
        enough = inl (omega (arith, h, st.most));
        most = st.most;
        others = λ j apart_j. st.others j (λ e. apart_j.0 (sym e));
      }
        where
          both :
              (xs : List Item)
              → All (λ x. Below x st.rest) xs
              → All (λ x. Below x (stock M shelves)) xs
              → All (λ x. Below x (st.rest ++ stock M shelves)) xs
          both [] a b = tt
          both (x ∷ xs) a b = (
            All-append (λ (y : Item). rank x.key ≤ rank y.key) st.rest (stock M shelves) a.0 b.0,
            both xs a.1 b.1,
          )

      -- The bucket had less, so nothing of it is left, and the loop goes on.
      Popped-goes_on :
          length st.taken < n
          → Popped st.state shelves (n - length st.taken) (acc ++ st.taken)
          → Popped s (sh ∷ shelves) n acc
      Popped-goes_on h p = record {
        taken = st.taken ++ p.taken;
        rests = (sh.0, []) ∷ p.rests;
        state = p.state;
        count = p.count;
        runs =
            step_runs goes_on
              (ap (λ t. if t then stops else goes_on) (some_more n (length st.taken) h small))
            ∙ p.runs
            ∙ (λ i. ok (p.state, (p.count, append_assoc acc st.taken p.taken i), none));
        keys = ap (◌∷◌ sh.0) p.keys;
        leaves = (
          Leaves-same M laws T tree_laws fork st.state p.state sh.0 [] (p.others sh.0 apart.0)
              (subst (Leaves M laws T tree_laws fork st.state sh.0) nothing st.leaves),
          p.leaves,
        );
        whole =
            subst (λ xs. Perm xs (stock M (sh ∷ shelves)))
              (sym (append_assoc st.taken p.taken (leftovers M p.rests)))
              (Perm.append
                (subst (λ xs. Perm xs sh.2) (ap (λ r. st.taken ++ r) nothing ∙ append-nil st.taken)
                  st.whole)
                p.whole);
        ordered = Ordered-append st.taken p.taken st.ordered p.ordered (later st.taken low);
        lowest =
            All-append (λ x. Below x (leftovers M p.rests)) st.taken p.taken
              (rests_above st.taken low) p.lowest;
        enough = elim p.enough [
          | inl e ↦ inl (omega (arith, e, h, length-append st.taken p.taken))
          | inr e ↦ inr e
        ];
        most = omega (arith, length-append st.taken p.taken, p.most, h);
        others = λ j apart_j. p.others j apart_j.1 ∙ st.others j (λ e. apart_j.0 (sym e));
      }
        where
          nothing : st.rest ≡ []
          nothing = elim st.enough [ inl e ↦ absurd (omega (arith, h, e)) | inr e ↦ e ]

          split :
              (x : Item)
              → Below x (stock M shelves)
              → Below x p.taken × Below x (leftovers M p.rests)
          split x b =
              All-append_inv (λ (y : Item). rank x.key ≤ rank y.key) p.taken (leftovers M p.rests)
                (Below-perm x (Perm.symm p.whole) b)

          later :
              (xs : List Item)
              → All (λ x. Below x (stock M shelves)) xs
              → All (λ x. Below x p.taken) xs
          later xs h = All-map xs (λ x b. (split x b).0) h

          rests_above :
              (xs : List Item)
              → All (λ x. Below x (stock M shelves)) xs
              → All (λ x. Below x (leftovers M p.rests)) xs
          rests_above xs h = All-map xs (λ x b. (split x b).1) h

    module _ (all_close : (k : ℕ) → env.closes k ≡ true)
        (all_remove : (k : ℕ) → env.removes k ≡ true)
        (written_all : (key k : ℕ) → (os key).writes k ≡ written)
        (synced : (key : ℕ) → (os key).synced ≡ true) where
      Step-at :
          (s : Buckets M T) (sh : Shelf M) (n : ℕ) (acc : List Item)
          (up : Ascending (T.entries s.tree))
          → 0 < n
          → n < 2 ^ 63
          → IsQueue M laws sh.1 fork sh.2
          → length sh.2 < 2 ^ 63
          → ∥ Step M laws T tree_laws fork env opts s sh.0 up all_close all_remove sh.1 sh.2 acc n
              os ∥₁
      Step-at s sh zero acc up pos small q few = absurd (omega arith)
      Step-at s sh (suc m) acc up pos small q few =
          read-Step M laws T tree_laws fork env opts s sh.0 up all_close all_remove sh.1 sh.2 acc m
            os q few small (written_all sh.0) (synced sh.0)

      pub reads-Popped :
          (shelves : List (Shelf M)) (s : Buckets M T) (n : ℕ) (acc : List Item)
          → 0 < n
          → n < 2 ^ 63
          → Ascending (T.entries s.tree)
          → Stocked M laws T tree_laws fork s shelves
          → Apart M shelves
          → Parted M shelves
          → ∥ Popped s shelves n acc ∥₁
      reads-Popped [] s n acc pos small up stocked apart parted = ∣ Popped-none s n acc ∣₁
      reads-Popped (sh ∷ shelves) s n acc pos small up stocked apart parted =
          ∥∥₁_elim (Step-at s sh n acc up pos small stocked.0.1 stocked.0.2) ∥∥₁_prop (λ st.
            elim (Bool-cases (ltb (length st.taken) n)) [
              | inl fewer ↦
                  ∥∥₁_map
                    (reads-Popped shelves st.state (n - length st.taken) (acc ++ st.taken)
                      (ground (arith, fewer)) (omega (arith, small)) st.ascending
                      (Stocked-others M laws T tree_laws fork s st.state sh.0 shelves st.others
                        apart.0 stocked.1)
                      apart.1 parted.1)
                    (Popped-goes_on s sh shelves n acc all_close all_remove up st stocked apart
                      parted small (ground (arith, fewer)))
              | inr enough ↦
                  ∣ Popped-stops s sh shelves n acc all_close all_remove up st stocked apart parted
                    small (ground (arith, enough)) ∣₁
            ])
