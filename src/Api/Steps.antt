-- ===== src/Api/Steps.antt =====
-- PopCopy of api.go on one bucket of the tree.
use mathlib.Core.Logic.{∥∥₁_map}
use mathlib.Core.List.{Perm}
use timeq.Base.{
  ℕ, suc, ◌+◌, ◌-◌, ◌^◌, ◌≤◌, ◌<◌, ◌≡◌, ◌≢◌, refl, sym, ◌∙◌, ap, subst, true, false, List, [], ◌∷◌,
  ◌++◌, Option, none, some, length, length-append, arith, All, Run, ok, ◌>>=◌, ltb, if◌then◌else◌,
  Bool-cases, ◌⊎◌, inl, inr,
}
use timeq.Base.Perms.{perm_length}
use timeq.Base.Words.{rank, sub64, le_i64}
use timeq.Item.{Item, Location}
use timeq.Item.Copies.{items_copy_lem}
use timeq.Item.Order.{Below, Ordered}
use timeq.Btree.Places.{some_injective}
use timeq.Btree.{OrderedMap, IsOrderedMap, lookup}
use timeq.Btree.Pairs.{
  Ascending, insert-Ascending, remove-Ascending, lookup-inserted, lookup-insert_other,
  lookup-removed, lookup-remove_other,
}
use timeq.Options.{Options}
use timeq.Index.Codec.{written}
use timeq.Bucket.{Bucket, BucketIndex, ForkName, BucketError, find_index, name_eq}
use timeq.Bucket.Forks.{len, all_empty, indexes_empty}
use timeq.Bucket.Pop.{read, finish_read, read_op_pop}
use timeq.Bucket.Queue.{IsQueue, len-IsQueue}
use timeq.Bucket.Queue.Reads.{ReadsLowest, read-ReadsLowest}
use timeq.Buckets.Tree.{Buckets, Env}
use timeq.Buckets.Tree.Deleting.{delete_bucket, delete_found, delete_error}
use timeq.Buckets.Tree.Iter.{
  BucketCalls, Verdict, goes_on, stops, read_entry, after_read, count_read, count_of, with_bucket,
}
use timeq.Api.{pop_fn}

module _ (M : OrderedMap (List Location)) where
  -- A bucket all of whose forks are empty has an empty fork.
  empty_len :
      (ixs : List (ForkName × BucketIndex M)) (fork : ForkName) (idx : BucketIndex M)
      → indexes_empty M ixs ≡ true
      → find_index M ixs fork ≡ some idx
      → idx.mem.len ≡ 0
  unfolding indexes_empty find_index
  empty_len [] fork idx h e = absurd (cc)
  empty_len ((name, i) ∷ rest) fork idx h e = elim (Bool-cases (ltb 0 i.mem.len)) [
    | inl some_left ↦ let no : false ≡ true = rw some_left at h in absurd (cc)
    | inr none_left ↦
        let rest_empty : indexes_empty M rest ≡ true = rw none_left at h in
        elim (Bool-cases (name_eq name fork)) [
          | inl here ↦
              let same : some i ≡ some idx = rw here at e in
              let zero_len : i.mem.len ≡ 0 = ground (arith, none_left) in
              subst (λ (x : BucketIndex M). x.mem.len ≡ 0) (some_injective same) zero_len
          | inr there ↦ empty_len rest fork idx rest_empty (rw there at e)
        ]
  ]

module _ (M : OrderedMap (List Location)) (laws : IsOrderedMap M)
    (T : OrderedMap (Option (Bucket M))) (tree_laws : IsOrderedMap T) (fork : ForkName) where
  -- What of a bucket is left: the bucket is deleted and held nothing more, or it holds the items.
  abbrev pub Leaves : Buckets M T → ℕ → List Item → Type 0
  Leaves s key rest =
      ((T.get s.tree key ≡ none) × (rest ≡ []))
      ⊎ ((b : Bucket M) × (T.get s.tree key ≡ some (some b)) × IsQueue M laws b fork rest)

  module _ (env : Env M T) (opts : Options) (s : Buckets M T) (key : ℕ)
      (up : Ascending (T.entries s.tree)) (all_close : (k : ℕ) → env.closes k ≡ true)
      (all_remove : (k : ℕ) → env.removes k ≡ true) where
    -- The state once a bucket was read, and deleted if it is empty.
    record Settled (after : Bucket M) (rest : List Item) : Type 0 where
      state : Buckets M T
      result :
          (if all_empty M after
            then delete_bucket M T env opts (with_bucket M T env opts s key after) key
            else (with_bucket M T env opts s key after, none))
          ≡ (state, none)
      ascending : Ascending (T.entries state.tree)
      leaves : Leaves state key rest
      others : (j : ℕ) → rank j ≢ rank key → T.get state.tree j ≡ T.get s.tree j

    module _ (after : Bucket M) where
      abbrev put : Buckets M T
      put = with_bucket M T env opts s key after

      put-get : T.get put.tree key ≡ some (some after)
      put-get =
          tree_laws.get-lookup put.tree key
          ∙ ap (lookup key) (tree_laws.entries-set s.tree key (some after))
          ∙ lookup-inserted key (some after) (T.entries s.tree)

      put-others : (j : ℕ) → rank j ≢ rank key → T.get put.tree j ≡ T.get s.tree j
      put-others j h =
          tree_laws.get-lookup put.tree j
          ∙ ap (lookup j) (tree_laws.entries-set s.tree key (some after))
          ∙ lookup-insert_other j key (some after) (T.entries s.tree) h
          ∙ sym (tree_laws.get-lookup s.tree j)

      put-Ascending : Ascending (T.entries put.tree)
      put-Ascending =
          subst Ascending (sym (tree_laws.entries-set s.tree key (some after)))
            (insert-Ascending key (some after) (T.entries s.tree) up)

      abbrev dropped : Buckets M T
      dropped = (delete_found M T env opts put key (some (some after))).0

      dropped-delete : delete_bucket M T env opts put key ≡ (dropped, none)
      unfolding delete_bucket delete_found
      dropped-delete = ap (delete_found M T env opts put key) put-get ∙ (λ i. (dropped, no_error i))
        where
          no_error : delete_error M T env opts key (some after) ≡ none
          no_error = rw (all_close key, all_remove key)

      dropped-get : T.get dropped.tree key ≡ none
      unfolding delete_found
      dropped-get =
          tree_laws.get-lookup dropped.tree key
          ∙ ap (lookup key) (tree_laws.entries-delete put.tree key)
          ∙ lookup-removed key (T.entries put.tree) put-Ascending

      dropped-others : (j : ℕ) → rank j ≢ rank key → T.get dropped.tree j ≡ T.get s.tree j
      unfolding delete_found
      dropped-others j h =
          tree_laws.get-lookup dropped.tree j
          ∙ ap (lookup j) (tree_laws.entries-delete put.tree key)
          ∙ lookup-remove_other j key (T.entries put.tree) h
          ∙ sym (tree_laws.get-lookup put.tree j)
          ∙ put-others j h

      dropped-Ascending : Ascending (T.entries dropped.tree)
      unfolding delete_found
      dropped-Ascending =
          subst Ascending (sym (tree_laws.entries-delete put.tree key))
            (remove-Ascending key (T.entries put.tree) put-Ascending)

      nothing_held :
          (rest : List Item)
          → IsQueue M laws after fork rest
          → length rest < 2 ^ 63
          → all_empty M after ≡ true
          → rest ≡ []
      unfolding len
      nothing_held [] q small e = refl
      nothing_held (it ∷ rest) q small e =
          let counted : len M after fork ≡ q.idx.mem.len = rw (len, q.found) in
          absurd (
            omega (
              arith,
              counted,
              len-IsQueue M laws after fork (it ∷ rest) q,
              empty_len M after.indexes fork q.idx e q.found,
              small,
            ))

      settled :
          (rest : List Item)
          → IsQueue M laws after fork rest
          → length rest < 2 ^ 63
          → Settled after rest
      settled rest q small = elim (Bool-cases (all_empty M after)) [
        | inl e ↦ record {
          state = dropped;
          result =
              ap (λ t. if t then delete_bucket M T env opts put key else (put, none)) e
              ∙ dropped-delete;
          ascending = dropped-Ascending;
          leaves = inl (dropped-get, nothing_held rest q small e);
          others = dropped-others;
        }
        | inr e ↦ record {
          state = put;
          result = ap (λ t. if t then delete_bucket M T env opts put key else (put, none)) e;
          ascending = put-Ascending;
          leaves = inr (after, put-get, q);
          others = put-others;
        }
      ]

    -- What Read does with one bucket for PopCopy, when `n` items are still to be read.
    pub record Step (b : Bucket M) (items acc : List Item) (n : ℕ) (os : ℕ → BucketCalls)
        : Type 0 where
      pub taken : List Item
      pub rest : List Item
      pub state : Buckets M T
      pub runs :
          read_entry M T env opts fork (pop_fn M) os s (n, acc) key (some b)
          ≡ ok (
            state,
            (n - length taken, acc ++ taken),
            if le_i64 (n - length taken) 0 then stops else goes_on,
          )
      pub whole : Perm (taken ++ rest) items
      pub ordered : Ordered taken
      pub lowest : All (λ x. Below x rest) taken
      pub enough : (length taken ≡ n) ⊎ (rest ≡ [])
      pub most : length taken ≤ n
      pub ascending : Ascending (T.entries state.tree)
      pub leaves : Leaves state key rest
      pub others : (j : ℕ) → rank j ≢ rank key → T.get state.tree j ≡ T.get s.tree j

    module _ (b : Bucket M) (items acc : List Item) (m : ℕ) (os : ℕ → BucketCalls)
        (q : IsQueue M laws b fork items) (small : length items < 2 ^ 63) (few : suc m < 2 ^ 63)
        (written_all : (k : ℕ) → (os key).writes k ≡ written)
        (synced : (os key).synced ≡ true) where
      Step-from :
          ReadsLowest M laws b fork items (suc m) (pop_fn M) acc (os key).writes
          → Step b items acc (suc m) os
      unfolding read_entry pop_fn after_read
      Step-from r =
          let sizes : length items ≡ length r.peeked.items + length r.lowest.rest =
            sym (perm_length r.lowest.whole) ∙ length-append r.peeked.items r.lowest.rest in
          let done = settled r.after r.lowest.rest r.leaves (omega (arith, sizes, small)) in
          let start : count_of M T env opts (suc m) ≡ suc m = ground (arith, few) in
          let reading : read M b (suc m) fork (pop_fn M) acc (os key).writes true
              ≡ ok (r.after, acc ++ r.peeked.items, none) =
            r.calls
            ∙ ap
                (λ c. (c >>= λ copied. ok (b, acc ++ copied, inl read_op_pop)) >>= λ x.
                  finish_read M fork r.peeked.iters (os key).writes true x)
                (items_copy_lem r.peeked.items)
            ∙ r.pops (acc ++ r.peeked.items) in
          let left : sub64 (suc m) (sub64 (len M b fork) (len M r.after fork))
              ≡ suc m - length r.peeked.items =
            omega (
              arith,
              len-IsQueue M laws b fork items q,
              len-IsQueue M laws r.after fork r.lowest.rest r.leaves,
              sizes,
              small,
              few,
              r.lowest.most,
            ) in
          record {
            taken = r.peeked.items;
            rest = r.lowest.rest;
            state = done.state;
            runs =
                ap (λ c. read M b c fork (pop_fn M) acc (os key).writes (os key).synced >>= counts)
                  start
                ∙ ap (λ t. read M b (suc m) fork (pop_fn M) acc (os key).writes t >>= counts) synced
                ∙ ap (λ r. r >>= counts) reading
                ∙ ap
                    (λ d. ok (
                      count_read M T env opts fork (suc m) (len M b fork) r.after
                        (acc ++ r.peeked.items) d))
                    done.result
                ∙ ap
                    (λ k. ok (
                      done.state,
                      (k, acc ++ r.peeked.items),
                      if le_i64 k 0 then stops else goes_on,
                    ))
                    left;
            whole = r.lowest.whole;
            ordered = r.lowest.ordered;
            lowest = r.lowest.lowest;
            enough = r.lowest.enough;
            most = r.lowest.most;
            ascending = done.ascending;
            leaves = done.leaves;
            others = done.others;
          }
        where
          counts :
              Bucket M × List Item × Option BucketError
              → Run (Buckets M T × (ℕ × List Item) × Verdict)
          counts r = ok (after_read M T env opts fork (suc m) (len M b fork) s key r)

      pub read-Step : ∥ Step b items acc (suc m) os ∥₁
      read-Step =
          ∥∥₁_map
            (read-ReadsLowest M laws b fork items m (pop_fn M) acc (os key).writes written_all q)
            Step-from
