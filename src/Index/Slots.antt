-- ===== src/Index/Slots.antt =====
-- Delete of index/index.go takes the first location of its key, in the order of iteration.
use timeq.Base.{
  ℕ, ◌≡◌, ◌≢◌, sym, ◌∙◌, ap, subst, List, [], ◌∷◌, ◌++◌, none, some, All, All-append_inv, All-map,
  arith, Option-cases, Bool-cases, inl, inr, ok, ◌==◌,
}
use timeq.Base.Words.{rank}
use timeq.Item.{Location}
use timeq.Btree.{OrderedMap, IsOrderedMap, lookup}
use timeq.Btree.Pairs.{lookup-Found}
use timeq.Index.{Index, delete}
use timeq.Index.Stable.{
  SameOrder, FirstAt, SameOrder-found, FirstAt-same, at_key-FirstAt, at_key-none,
}
use timeq.Index.Locations.{IsValid, locations, Grouped, NotAt-entries, delete_lem}

lookup-absent :
    {V : Type 0} (k : ℕ) (es : List (ℕ × V))
    → lookup k es ≡ none
    → All (λ (e : ℕ × V). rank e.0 ≢ rank k) es
unfolding lookup
lookup-absent k [] h = tt
lookup-absent k ((j, w) ∷ es) h = elim (Bool-cases (rank k == rank j)) [
  | inl same ↦ let found : some w ≡ none = rw same at h in absurd (cc)
  | inr other ↦ ((λ e. ground (arith, other, e)), lookup-absent k es (rw other at h))
]

module _ (M : OrderedMap (List Location)) (laws : IsOrderedMap M) (i : Index M)
    (v : IsValid M i) where
  -- The locations under a key: at least one, and each with that key.
  pub slot-Grouped :
      (key : ℕ) (locs : List Location) → M.get i.m key ≡ some locs → Grouped (key, locs)
  slot-Grouped key locs e =
      let f =
        lookup-Found key locs (M.entries i.m) v.ascending (sym (laws.get-lookup i.m key) ∙ e) in
      let parts =
        All-append_inv Grouped f.front ((f.key, locs) ∷ f.back)
          (subst (All Grouped) f.split v.grouped) in
      (parts.1.0.0, All-map locs (λ l p. p ∙ sym f.same) parts.1.0.1)

  -- Delete of a key that some location of a valid index has does not panic. It returns the first
  -- location of that key, in the order of iteration, takes it and no other away, keeps the order of
  -- the locations of every key, and keeps the index valid.
  pub delete-FirstAt :
      (key : ℕ) (f : FirstAt key (locations M i))
      → (i' : Index M) × (delete M i key ≡ ok (i', f.loc))
        × IsValid M i'
        × SameOrder (locations M i') (f.front ++ f.back)
  delete-FirstAt key f = elim (Option-cases (M.get i.m key)) [
    | inl e ↦
        let absent =
          NotAt-entries key (M.entries i.m)
            (lookup-absent key (M.entries i.m) (sym (laws.get-lookup i.m key) ∙ e)) v.grouped in
        absurd (cc (at_key-FirstAt key (locations M i) f, at_key-none key (locations M i) absent))
    | inr ([], e) ↦ absurd (omega (arith, (slot-Grouped key [] e).0))
    | inr (loc ∷ rest, e) ↦
        let (i', run, v', all, order) = delete_lem M laws i v key loc rest e in
        let same : rank loc.key ≡ rank key = (slot-Grouped key (loc ∷ rest) e).1.0 in
        let there = FirstAt-same loc.key key (locations M i) same f in
        let (found, left) = SameOrder-found loc (locations M i') (locations M i) there order in
        (i', run ∙ ap (λ l. ok (i', l)) (sym found), v', left)
  ]
