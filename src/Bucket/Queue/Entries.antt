-- ===== src/Bucket/Queue/Entries.antt =====
-- The entries of a bucket's map of forks (bucket.go) after a change of one or of all.
use timeq.Base.{
  ◌≡◌, refl, ◌∙◌, ap, false, List, [], ◌∷◌, map, some, if◌then◌else◌, Bool-cases, inl, inr,
}
use timeq.Item.{Location}
use timeq.Btree.{OrderedMap}
use timeq.Btree.Places.{some_injective}
use timeq.Bucket.{BucketIndex, ForkName, name_eq, find_index, put_index}
use timeq.Bucket.Copies.{name_eq→eq}

module _ (M : OrderedMap (List Location)) where
  pub find_index-put_index :
      (ixs : List (ForkName × BucketIndex M)) (fork : ForkName) (idx new : BucketIndex M)
      → find_index M ixs fork ≡ some idx
      → find_index M (put_index M ixs fork new) fork ≡ some new
  unfolding find_index put_index
  find_index-put_index [] fork idx new h = absurd (cc)
  find_index-put_index ((name, i) ∷ rest) fork idx new h = elim (Bool-cases (name_eq name fork)) [
    | inl e ↦ rw (e, e)
    | inr e ↦
        let later : find_index M rest fork ≡ some idx = rw e at h in
        rw (e, e) (find_index-put_index rest fork idx new later)
  ]

  pub put_index-others :
      (ixs : List (ForkName × BucketIndex M)) (fork other : ForkName) (new : BucketIndex M)
      → name_eq fork other ≡ false
      → find_index M (put_index M ixs fork new) other ≡ find_index M ixs other
  unfolding find_index put_index
  put_index-others [] fork other new h = refl
  put_index-others ((name, i) ∷ rest) fork other new h = elim (Bool-cases (name_eq name fork)) [
    | inl e ↦
        let differs : name_eq name other ≡ false =
          ap (λ n. name_eq n other) (name_eq→eq name fork e) ∙ h in
        rw (e, differs)
    | inr e ↦ rw e (
        ap (λ r. if name_eq name other then some i else r) (put_index-others rest fork other new h))
  ]

  -- A change of every entry.
  pub find_index-map :
      (f : BucketIndex M → BucketIndex M) (ixs : List (ForkName × BucketIndex M)) (fork : ForkName)
      (idx : BucketIndex M)
      → find_index M ixs fork ≡ some idx
      → find_index M (map (λ (e : ForkName × BucketIndex M). (e.0, f e.1)) ixs) fork ≡ some (f idx)
  unfolding find_index
  find_index-map f [] fork idx h = absurd (cc)
  find_index-map f ((name, i) ∷ rest) fork idx h = elim (Bool-cases (name_eq name fork)) [
    | inl e ↦
        let here : some i ≡ some idx = rw e at h in
        rw e (ap (λ i. some (f i)) (some_injective here))
    | inr e ↦
        let later : find_index M rest fork ≡ some idx = rw e at h in
        rw e (find_index-map f rest fork idx later)
  ]
