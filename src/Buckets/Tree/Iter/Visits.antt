-- ===== src/Buckets/Tree/Iter/Visits.antt =====
-- What iter of buckets.go visits when its callback changes no bucket.
use mathlib.Core.List.{append_assoc, append-nil}
use timeq.Base.{
  ℕ, ◌<◌, ◌≡◌, ◌≢◌, refl, sym, ◌∙◌, ap, subst, Bool, true, List, [], ◌∷◌, ◌++◌, Option, none, some,
  Run, ok, All, arith,
}
use timeq.Base.Words.{rank}
use timeq.Item.{Location}
use timeq.Btree.{OrderedMap, IsOrderedMap, lookup}
use timeq.Btree.Pairs.{Ascending}
use timeq.Options.{Options}
use timeq.Vlog.{PushAnswers}
use timeq.Bucket.{Bucket, BucketError, ForkName}
use timeq.Buckets.Tree.{Buckets, Env, Entry}
use timeq.Buckets.Tree.Iter.{
  IterMode, include_nil, loaded_only, load, Verdict, goes_on, iter, iter_keys, visit_key, visit_nil,
  sync_bucket, sync_entry, sync_all,
}

lookup-middle :
    {V : Type 0} (front es : List (ℕ × V)) (k : ℕ) (v : V)
    → Ascending (front ++ ((k, v) ∷ es))
    → lookup k (front ++ ((k, v) ∷ es)) ≡ some v
unfolding lookup
lookup-middle [] es k v up = ground arith
lookup-middle {V} ((j, w) ∷ front) es k v up =
    let above : rank j < rank k = below front up.0 in
    ground (arith, above, lookup-middle front es k v up.1)
  where
    below :
        (front : List (ℕ × V))
        → All (λ (e : ℕ × V). rank j < rank e.0) (front ++ ((k, v) ∷ es))
        → rank j < rank k
    below [] h = h.0
    below (e ∷ front) h = below front h.1

module _ (M : OrderedMap (List Location)) (T : OrderedMap (Option (Bucket M))) (env : Env M T)
    (opts : Options) where
  module _ {X : Type 0} (g : X → ℕ → Option (Bucket M) → X) where
    -- The callback g on the buckets of a list, in order, but in the mode loaded_only not on those
    -- that are not loaded.
    abbrev pub fold_entries : IterMode → X → List (Entry M T) → X
    fold_entries mode x [] = x
    fold_entries mode x ((key, some b) ∷ es) = fold_entries mode (g x key (some b)) es
    fold_entries loaded_only x ((key, none) ∷ es) = fold_entries loaded_only x es
    fold_entries include_nil x ((key, none) ∷ es) = fold_entries include_nil (g x key none) es
    fold_entries load x ((key, none) ∷ es) = fold_entries load (g x key none) es

    abbrev pub pure : Buckets M T → X → ℕ → Option (Bucket M) → Run (Buckets M T × X × Verdict)
    pure s x key slot = ok (s, g x key slot, goes_on)

    module _ (laws : IsOrderedMap T) (s : Buckets M T) (up : Ascending (T.entries s.tree)) where
      here :
          (front es : List (Entry M T)) (key : ℕ) (slot : Option (Bucket M))
          → T.entries s.tree ≡ front ++ ((key, slot) ∷ es)
          → T.get s.tree key ≡ some slot
      here front es key slot e =
          laws.get-lookup s.tree key
          ∙ ap (lookup key) e
          ∙ lookup-middle front es key slot (subst Ascending e up)

      iter_keys-fold :
          (mode : IterMode) (front es : List (Entry M T)) (x : X)
          → mode ≢ load
          → T.entries s.tree ≡ front ++ es
          → iter_keys M T env opts mode pure es s x ≡ ok (s, fold_entries mode x es, none)
      unfolding iter_keys visit_key visit_nil
      iter_keys-fold mode front [] x h e = refl
      iter_keys-fold mode front ((key, some b) ∷ es) x h e =
          ap (visit_key M T env opts mode pure (iter_keys M T env opts mode pure es) s x key)
            (here front es key (some b) e)
          ∙ iter_keys-fold mode (front ++ ((key, some b) ∷ [])) es (g x key (some b)) h
              (e ∙ sym (append_assoc front ((key, some b) ∷ []) es))
      iter_keys-fold loaded_only front ((key, none) ∷ es) x h e =
          ap
            (visit_key M T env opts loaded_only pure (iter_keys M T env opts loaded_only pure es) s
              x key)
            (here front es key none e)
          ∙ iter_keys-fold loaded_only (front ++ ((key, none) ∷ [])) es x h
              (e ∙ sym (append_assoc front ((key, none) ∷ []) es))
      iter_keys-fold include_nil front ((key, none) ∷ es) x h e =
          ap
            (visit_key M T env opts include_nil pure (iter_keys M T env opts include_nil pure es) s
              x key)
            (here front es key none e)
          ∙ iter_keys-fold include_nil (front ++ ((key, none) ∷ [])) es (g x key none) h
              (e ∙ sym (append_assoc front ((key, none) ∷ []) es))
      iter_keys-fold load front ((key, none) ∷ es) x h e = absurd (h refl)

      -- X
      pub iter-fold_entries :
          (mode : IterMode) (x : X)
          → mode ≢ load
          → iter M T env opts mode pure s x ≡ ok (s, fold_entries mode x (T.entries s.tree), none)
      unfolding iter
      iter-fold_entries mode x h = iter_keys-fold mode [] (T.entries s.tree) x h refl

  -- The errors of the loaded buckets' Sync, in the order of the tree.
  abbrev pub sync_errors :
      (ℕ → PushAnswers) → (ℕ → ForkName → Bool) → List (Entry M T) → List BucketError
  sync_errors os synced [] = []
  sync_errors os synced ((key, none) ∷ es) = sync_errors os synced es
  sync_errors os synced ((key, some b) ∷ es) =
      sync_bucket M b true (os key) (synced key) ++ sync_errors os synced es

  module _ (os : ℕ → PushAnswers) (synced : ℕ → ForkName → Bool) where
    abbrev join_sync : List BucketError → ℕ → Option (Bucket M) → List BucketError
    join_sync errs key none = errs
    join_sync errs key (some b) = errs ++ sync_bucket M b true (os key) (synced key)

    sync_entry-pure :
        (s : Buckets M T) (errs : List BucketError) (key : ℕ) (slot : Option (Bucket M))
        → pure join_sync s errs key slot ≡ sync_entry M T env opts os synced s errs key slot
    sync_entry-pure s errs key none = refl
    sync_entry-pure s errs key (some b) = refl

    join_sync-fold :
        (errs : List BucketError) (es : List (Entry M T))
        → fold_entries join_sync loaded_only errs es ≡ errs ++ sync_errors os synced es
    join_sync-fold errs [] = sym (append-nil errs)
    join_sync-fold errs ((key, none) ∷ es) = join_sync-fold errs es
    join_sync-fold errs ((key, some b) ∷ es) =
        join_sync-fold (errs ++ sync_bucket M b true (os key) (synced key)) es
        ∙ append_assoc errs (sync_bucket M b true (os key) (synced key)) (sync_errors os synced es)

    -- Sync syncs every loaded bucket, goes on after an error, and returns the errors of all of
    -- them in the order of the tree.
    pub sync_all-sync_errors :
        (laws : IsOrderedMap T) (s : Buckets M T)
        → Ascending (T.entries s.tree)
        → sync_all M T env opts os synced s ≡ ok (s, sync_errors os synced (T.entries s.tree), none)
    unfolding sync_all
    sync_all-sync_errors laws s up =
        (λ i.
          iter M T env opts loaded_only (λ s errs key slot. sym (sync_entry-pure s errs key slot) i)
            s [])
        ∙ iter-fold_entries join_sync laws s up loaded_only [] (λ p. absurd (cc))
        ∙ (λ i. ok (s, join_sync-fold [] (T.entries s.tree) i, none))
