-- ===== src/Buckets/Tree/Lengths.antt =====
-- Len of buckets.go while buckets are closed: the trailers stand in for the indexes.
use timeq.Base.{
  ℕ, zero, suc, ◌<◌, ◌≡◌, refl, sym, ◌∙◌, ap, subst, true, false, List, [], ◌∷◌, Option, none, some,
  get_elem?, set, arith, Bool-cases, inl, inr, ◌==◌, All,
}
use timeq.Base.Words.{rank, add64}
use timeq.Item.{Location}
use timeq.Btree.{OrderedMap, IsOrderedMap}
use timeq.Btree.Pairs.{Ascending}
use timeq.Btree.Places.{some_injective, none_ne_some, All-get_elem?}
use timeq.Index.{Trailer, trailer}
use timeq.Options.{Options}
use timeq.Bucket.{Bucket, BucketIndex, ForkName, find_index, name_eq}
use timeq.Bucket.Forks.{len, trailers}
use timeq.Buckets.Tree.{
  Buckets, Env, Entry, Trailers, get_trailer, add_trailers, close_bucket, entry_at, close_unused,
  entry_len, entries_len, fork_len, trailer_len,
}
use timeq.Buckets.Tree.Closing.{close_unused-keeps, close_bucket-entries, close_bucket-Ascending}

get_trailer-other :
    (key k : ℕ) (fork : ForkName) (new : List (ForkName × Trailer)) (ts : Trailers)
    → (key == k) ≡ false
    → get_trailer (add_trailers key new ts) k fork ≡ get_trailer ts k fork
unfolding get_trailer
get_trailer-other key k fork [] ts h = refl
get_trailer-other key k fork ((f, t) ∷ new) ts h = rw h (get_trailer-other key k fork new ts h)

module _ (M : OrderedMap (List Location)) where
  get_trailer-trailers :
      (key : ℕ) (fork : ForkName) (indexes : List (ForkName × BucketIndex M)) (ts : Trailers)
      (idx : BucketIndex M)
      → find_index M indexes fork ≡ some idx
      → get_trailer (add_trailers key (trailers M indexes) ts) key fork ≡ some (trailer M idx.mem)
  unfolding get_trailer trailers find_index
  get_trailer-trailers key fork [] ts idx h = absurd (none_ne_some h)
  get_trailer-trailers key fork ((name, first) ∷ rest) ts idx h =
      elim (Bool-cases (name_eq name fork)) [
        | inl here ↦
            let same : first ≡ idx = some_injective (rw here at h) in
            rw (itself, here) (ap (λ i. some (trailer M i.mem)) same)
        | inr later ↦ rw (itself, later) (get_trailer-trailers key fork rest ts idx (rw later at h))
      ]
    where
      itself : (key == key) ≡ true
      itself = ground arith

  len-find_index :
      (b : Bucket M) (fork : ForkName) (idx : BucketIndex M)
      → find_index M b.indexes fork ≡ some idx
      → len M b fork ≡ idx.mem.len
  unfolding len
  len-find_index b fork idx h =
      ap (λ (o : Option (BucketIndex M)). elim o [ none ↦ 0 | some i ↦ i.mem.len ]) h

  module _ (T : OrderedMap (Option (Bucket M))) (fork : ForkName) where
    -- A bucket, if it is loaded, has the fork.
    abbrev pub Forked : Option (Bucket M) → Type 0
    Forked none = Unit {0}
    Forked (some b) = (idx : BucketIndex M) × (find_index M b.indexes fork ≡ some idx)

    abbrev pub AllForked : List (Entry M T) → Type 0
    AllForked es = All (λ (e : Entry M T). Forked e.1) es

    AllForked-set :
        (es : List (Entry M T)) (i key : ℕ) → AllForked es → AllForked (set es i (key, none))
    AllForked-set [] i key h = h
    AllForked-set (e ∷ es) zero key h = (tt, h.1)
    AllForked-set (e ∷ es) (suc i) key h = (h.0, AllForked-set es i key h.1)

    entry_len-other :
        (key : ℕ) (new : List (ForkName × Trailer)) (ts : Trailers) (e : Entry M T)
        → (key == e.0) ≡ false
        → entry_len M T (add_trailers key new ts) fork e ≡ entry_len M T ts fork e
    entry_len-other key new ts (k, none) h =
        ap (trailer_len M T) (get_trailer-other key k fork new ts h)
    entry_len-other key new ts (k, some b) h = refl

    entries_len-above :
        (key : ℕ) (new : List (ForkName × Trailer)) (ts : Trailers) (es : List (Entry M T))
        → All (λ e. rank key < rank e.0) es
        → entries_len M T (add_trailers key new ts) fork es ≡ entries_len M T ts fork es
    entries_len-above key new ts [] h = refl
    entries_len-above key new ts (e ∷ es) h =
        let other : (key == e.0) ≡ false = ground (arith, h.0) in
        λ i. add64 (entry_len-other key new ts e other i) (entries_len-above key new ts es h.1 i)

    entries_len-closed :
        (ts : Trailers) (es : List (Entry M T)) (i key : ℕ) (b : Bucket M)
        → Ascending es
        → get_elem? es i ≡ some (key, some b)
        → Forked (some b)
        → entries_len M T (add_trailers key (trailers M b.indexes) ts) fork (set es i (key, none))
          ≡ entries_len M T ts fork es
    entries_len-closed ts [] i key b up e h = absurd (none_ne_some e)
    entries_len-closed ts ((k, v) ∷ es) zero key b up e (idx, h) =
        let at_key : (k, v) ≡ (key, some b) = some_injective e in
        let here : trailer_len M T
              (get_trailer (add_trailers key (trailers M b.indexes) ts) key fork)
            ≡ len M b fork =
          ap (trailer_len M T) (get_trailer-trailers key fork b.indexes ts idx h)
          ∙ sym (len-find_index b fork idx h) in
        let above =
          subst (λ (p : Entry M T). All (λ (e : Entry M T). rank p.0 < rank e.0) es) at_key up.0 in
        (λ i. add64 (here i) (entries_len-above key (trailers M b.indexes) ts es above i))
        ∙ ap (λ p. add64 (entry_len M T ts fork p) (entries_len M T ts fork es)) (sym at_key)
    entries_len-closed ts (p ∷ es) (suc i) key b up e h =
        let below : rank p.0 < rank key =
          All-get_elem? (λ (e : Entry M T). rank p.0 < rank e.0) es i (key, some b) up.0 e in
        let other : (key == p.0) ≡ false = ground (arith, below) in
        λ j.
          add64 (entry_len-other key (trailers M b.indexes) ts p other j)
            (entries_len-closed ts es i key b up.1 e h j)

    module _ (laws : IsOrderedMap T) where
      -- What the loop of closeUnused keeps.
      record Measured (total : ℕ) (s : Buckets M T) : Type 0 where
        ascending : Ascending (T.entries s.tree)
        forked : AllForked (T.entries s.tree)
        measured : fork_len M T s fork ≡ total

      Measured-close :
          (total i key : ℕ) (s : Buckets M T) (b : Bucket M)
          → Measured total s
          → get_elem? (T.entries s.tree) i ≡ some (key, some b)
          → Measured total (close_bucket M T s key b)
      unfolding fork_len close_bucket
      Measured-close total i key s b m e =
          let after = close_bucket-entries M T laws s i key b m.ascending e in
          record {
            ascending = close_bucket-Ascending M T laws s key b m.ascending;
            forked = subst AllForked (sym after) (AllForked-set (T.entries s.tree) i key m.forked);
            measured =
                ap (entries_len M T (add_trailers key (trailers M b.indexes) s.trailers) fork) after
                ∙ entries_len-closed s.trailers (T.entries s.tree) i key b m.ascending e (
                    All-get_elem? (λ (e : Entry M T). Forked e.1) (T.entries s.tree) i (key, some b)
                      m.forked e)
                ∙ m.measured;
          }

      Measured-closes :
          (total key : ℕ) (place : Option ℕ) (s : Buckets M T) (b : Bucket M)
          → Measured total s
          → entry_at M T (T.entries s.tree) place ≡ some (key, some b)
          → Measured total (close_bucket M T s key b)
      Measured-closes total key none s b m e = absurd (none_ne_some e)
      Measured-closes total key (some i) s b m e = Measured-close total i key s b m e

      -- closeUnused does not change the Len of a fork that every loaded bucket has: the trailers
      -- that it stores stand in for the closed indexes.
      pub close_unused-fork_len :
          (env : Env M T) (opts : Options) (max_bucks : ℕ) (s : Buckets M T)
          → Ascending (T.entries s.tree)
          → AllForked (T.entries s.tree)
          → fork_len M T (close_unused M T env opts max_bucks s).0 fork ≡ fork_len M T s fork
      close_unused-fork_len env opts max_bucks s up h =
          (close_unused-keeps M T (Measured (fork_len M T s fork)) env opts max_bucks s
            (λ s' key b place m e. Measured-closes (fork_len M T s fork) key place s' b m e)
            (record { ascending = up; forked = h; measured = refl })).measured
