-- ===== src/Buckets/Tree/Forking/Lost.antt =====
-- loadAllBuckets of buckets.go, whose fetchForks opens a bucket without any fork name.
use timeq.Base.{
  ℕ, ◌+◌, ◌≡◌, refl, sym, ◌∙◌, ap, subst, Bool, true, false, List, [], ◌∷◌, Option, none, some, Run,
  ok, if◌then◌else◌, ◌⊎◌, inl, inr, All, Ends, Ends-bind, ◌≢◌, Bool-cases, ◌==◌, ◌&&◌, ltb, length,
}
use timeq.Item.{Location}
use timeq.Btree.{OrderedMap, IsOrderedMap}
use timeq.Options.{Options, error_mode_abort}
use timeq.Bucket.{Bucket, ForkName}
use timeq.Bucket.Open.{OpenError}
use timeq.Buckets.Tree.{
  Buckets, Env, Entry, Dir, TreeError, bytes, add_trailers, close_bucket, close_unused, set_opened,
  open_key, find_or_open, for_key,
}
use timeq.Buckets.Tree.Closing.{close_unused-keeps}
use timeq.Buckets.Tree.Forking.{
  fork_names, last_bucket, DirEntry, file, dir, Listing, Fetched, names_of, fetch_first,
  fetch_forks, list_entry, list_entries, list_next, listing_start, load_listed, with_forks,
  load_all,
}
use timeq.Base.Words.{rank, sub64}
use timeq.Btree.{lookup}
use timeq.Btree.Pairs.{All-insert}
use timeq.Btree.Places.{none_ne_some, some_injective}
use timeq.Buckets.Tree.Forking.Opening.{Unforked, OnLeft, MainBucket, open_bucket-Unforked}

module _ (M : OrderedMap (List Location)) (T : OrderedMap (Option (Bucket M))) where
  -- No bucket is loaded, and no fork is known.
  abbrev AllNil : List (Entry M T) → Type 0
  AllNil es = All (λ (e : Entry M T). e.1 ≡ none) es

  last_bucket-AllNil : (es : List (Entry M T)) → AllNil es → last_bucket M T es ≡ none
  last_bucket-AllNil [] h = refl
  last_bucket-AllNil ((key, slot) ∷ []) h = h.0
  last_bucket-AllNil ((key, slot) ∷ e ∷ es) h = last_bucket-AllNil (e ∷ es) h.1

  lookup-AllNil :
      (key : ℕ) (es : List (Entry M T)) (b : Bucket M) → AllNil es → lookup key es ≢ some (some b)
  unfolding lookup
  lookup-AllNil key [] b h e = none_ne_some e
  lookup-AllNil key ((k, slot) ∷ es) b h e = elim (Bool-cases (rank key == rank k)) [
    | inl here ↦ none_ne_some (sym h.0 ∙ some_injective (rw here at e))
    | inr later ↦ lookup-AllNil key es b h.1 (rw later at e)
  ]

  module _ (env : Env M T) (opts : Options) where
    abbrev Opened : Buckets M T × (Bucket M ⊎ TreeError) → Type 0
    Opened (s, r) = (s.forks ≡ []) × OnLeft (MainBucket M T) r

    set_opened-Opened :
        (s : Buckets M T) (key : ℕ) (r : Bucket M ⊎ OpenError)
        → s.forks ≡ []
        → OnLeft (MainBucket M T) r
        → Opened (set_opened M T s key r)
    set_opened-Opened s key (inl b) h p = (h, p)
    set_opened-Opened s key (inr e) h p = (h, tt)

    open_key-Opened :
        (key : ℕ) (c : Buckets M T × List ℕ)
        → c.0.forks ≡ []
        → Ends Opened (open_key M T env opts key c)
    unfolding open_key
    open_key-Opened key (s, k ∷ errs) h = (h, tt)
    open_key-Opened key (s, []) h =
        Ends-bind (OnLeft (MainBucket M T)) Opened _ (λ r. ok (set_opened M T s key r))
          (open_bucket-Unforked M T env.fuel opts.sync_mode env.page_size opts.error_mode (some key)
            (env.calls key) ((s.dirs key).log_file) (λ fork. bytes ((s.dirs key).index_files fork))
            s.forks (subst Unforked (sym h) tt))
          (λ r p. set_opened-Opened s key r h p)

    closed-forks :
        (s : Buckets M T)
        → s.forks ≡ []
        → (close_unused M T env opts (sub64 opts.max_parallel_open_buckets 1) s).0.forks ≡ []
    unfolding close_bucket
    closed-forks s h =
        close_unused-keeps M T (λ s'. s'.forks ≡ []) env opts
          (sub64 opts.max_parallel_open_buckets 1) s (λ s' key b place h' e. h') h

    reopened-Opened :
        (s : Buckets M T) (key : ℕ)
        → s.forks ≡ []
        → Ends Opened (
            open_key M T env opts key
              (close_unused M T env opts (sub64 opts.max_parallel_open_buckets 1) s))
    reopened-Opened s key h =
        open_key-Opened key (close_unused M T env opts (sub64 opts.max_parallel_open_buckets 1) s)
          (closed-forks s h)

    find_or_open-Opened :
        (s : Buckets M T) (key : ℕ) (found : Option (Option (Bucket M)))
        → s.forks ≡ []
        → ((b : Bucket M) → found ≢ some (some b))
        → Ends Opened (find_or_open M T env opts s key found)
    unfolding find_or_open
    find_or_open-Opened s key (some (some b)) h nil = absurd (nil b refl)
    find_or_open-Opened s key (some none) h nil = reopened-Opened s key h
    find_or_open-Opened s key none h nil = reopened-Opened s key h

    names_of-Opened :
        (sort : List ForkName → List ForkName)
        → sort [] ≡ []
        → (r : Buckets M T × (Bucket M ⊎ TreeError)) → Opened r
        → OnLeft (λ forks. forks ≡ []) (names_of M T env opts sort r).1
    names_of-Opened sort e (s, inr x) p = tt
    names_of-Opened sort e (s, inl b) p = ap sort p.1 ∙ e

    fetch_first-Unforked :
        (laws : IsOrderedMap T) (sort : List ForkName → List ForkName)
        → sort [] ≡ []
        → (s : Buckets M T) (es : List (Entry M T)) → s.forks ≡ []
        → AllNil (T.entries s.tree)
        → Ends
            (λ (f : Fetched M T env opts). OnLeft (λ forks. forks ≡ []) f.1)
            (fetch_first M T env opts sort s es)
    unfolding fetch_first for_key
    fetch_first-Unforked laws sort e s [] h nil = refl
    fetch_first-Unforked laws sort e s ((key, slot) ∷ es) h nil =
        Ends-bind Opened (λ (f : Fetched M T env opts). OnLeft (λ forks. forks ≡ []) f.1) _
          (λ r. ok (names_of M T env opts sort r))
          (find_or_open-Opened s key (T.get s.tree key) h (λ b found.
            lookup-AllNil key (T.entries s.tree) b nil (sym (laws.get-lookup s.tree key) ∙ found)))
          (λ r p. names_of-Opened sort e r p)

    fetch_forks-Unforked :
        (laws : IsOrderedMap T) (sort : List ForkName → List ForkName)
        → sort [] ≡ []
        → (s : Buckets M T) → s.forks ≡ []
        → AllNil (T.entries s.tree)
        → Ends
            (λ (f : Fetched M T env opts). OnLeft (λ forks. forks ≡ []) f.1)
            (fetch_forks M T env opts sort s)
    unfolding fetch_forks
    fetch_forks-Unforked laws sort e s h nil =
        subst (Ends (λ (f : Fetched M T env opts). OnLeft (λ forks. forks ≡ []) f.1))
          (sym (
            ap
              (λ (o : Option (Bucket M)). elim o [
                | some b ↦ ok (s, inl (sort (fork_names M T b.indexes)))
                | none ↦ fetch_first M T env opts sort s (T.entries s.tree)
              ])
              (last_bucket-AllNil (T.entries s.tree) nil)))
          (fetch_first-Unforked laws sort e s (T.entries s.tree) h nil)

    not_aborted :
        (t : Bool) (l l' : Listing M T env opts)
        (again : Listing M T env opts → Option (Listing M T env opts))
        → list_next M T env opts again (if t then none else some l) ≡ some l'
        → again l ≡ some l'
    not_aborted true l l' again e = absurd (none_ne_some e)
    not_aborted false l l' again e = e

    -- No listed bucket is loaded.
    list_entries-AllNil :
        (laws : IsOrderedMap T) (l l' : Listing M T env opts) (ents : List DirEntry)
        → AllNil (T.entries l.tree)
        → list_entries M T env opts l ents ≡ some l'
        → AllNil (T.entries l'.tree)
    unfolding list_entries list_entry
    list_entries-AllNil laws l l' [] h e =
        subst (λ (k : Listing M T env opts). AllNil (T.entries k.tree)) (some_injective e) h
    list_entries-AllNil laws l l' (file true ∷ ents) h e =
        list_entries-AllNil laws (record l { expected_files = l.expected_files + 1 }) l' ents h e
    list_entries-AllNil laws l l' (file false ∷ ents) h e = list_entries-AllNil laws l l' ents h e
    list_entries-AllNil laws l l' (dir none ts ∷ ents) h e =
        list_entries-AllNil laws l l' ents h
          (not_aborted (opts.error_mode == error_mode_abort) l l' _ e)
    list_entries-AllNil laws l l' (dir (some key) ts ∷ ents) h e =
        list_entries-AllNil laws
          (record l {
            tree = T.set l.tree key none;
            trailers = add_trailers key ts l.trailers;
            dirs_handled = l.dirs_handled + 1;
          })
          l' ents
          (subst AllNil (sym (laws.entries-set l.tree key none))
            (All-insert (λ (p : Entry M T). p.1 ≡ none) key none (T.entries l.tree) refl h))
          e

    abbrev Unknown : Option (Buckets M T) → Type 0
    Unknown none = Unit {0}
    Unknown (some s) = s.forks ≡ []

    with_forks-Unknown :
        (f : Fetched M T env opts)
        → OnLeft (λ forks. forks ≡ []) f.1
        → Unknown (with_forks M T env opts f)
    with_forks-Unknown (s, inl forks) h = h
    with_forks-Unknown (s, inr e) h = tt

    unless_refused :
        (t : Bool) (o : Run (Option (Buckets M T)))
        → Ends Unknown o
        → Ends Unknown (if t then ok none else o)
    unless_refused true o h = tt
    unless_refused false o h = h

    load_listed-Unknown :
        (laws : IsOrderedMap T) (sort : List ForkName → List ForkName) (dirs : ℕ → Dir) (n : ℕ)
        (found : Option (Listing M T env opts))
        → sort [] ≡ []
        → ((l : Listing M T env opts) → found ≡ some l → AllNil (T.entries l.tree))
        → Ends Unknown (load_listed M T env opts sort dirs n found)
    unfolding load_listed
    load_listed-Unknown laws sort dirs n none e nil = tt
    load_listed-Unknown laws sort dirs n (some l) e nil =
        let s : Buckets M T = record {
          tree = l.tree;
          trailers = l.trailers;
          forks = [];
          dirs = dirs;
        } in
        unless_refused (l.dirs_handled == 0 && ltb l.expected_files n) _ (
          Ends-bind (λ (f : Fetched M T env opts). OnLeft (λ forks. forks ≡ []) f.1) Unknown
            (fetch_forks M T env opts sort s) (λ r. ok (with_forks M T env opts r))
            (fetch_forks-Unforked laws sort e s refl (nil l refl)) (λ f p. with_forks-Unknown f p))

    -- After loadAllBuckets returned a queue, the queue has no forks, whatever index logs its
    -- directories hold.
    pub load_all-forks :
        (laws : IsOrderedMap T) (sort : List ForkName → List ForkName) (dirs : ℕ → Dir)
        (ents : List DirEntry) (s : Buckets M T)
        → sort [] ≡ []
        → load_all M T env opts sort dirs ents ≡ ok (some s)
        → s.forks ≡ []
    unfolding load_all
    load_all-forks laws sort dirs ents s e run = subst (Ends Unknown) run (
        load_listed-Unknown laws sort dirs (length ents)
          (list_entries M T env opts (listing_start M T env opts) ents) e
          (λ l listed.
            list_entries-AllNil laws (listing_start M T env opts) l ents
              (subst AllNil (sym laws.entries-empty) tt) listed))
