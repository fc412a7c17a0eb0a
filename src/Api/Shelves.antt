-- ===== src/Api/Shelves.antt =====
-- The loaded buckets of the tree, and what a fork holds in each of them.
use mathlib.Core.List.{Perm}
use mathlib.Core.List.Perm
use native.Mathlib.Bridge.{le_prop}
use timeq.Base.{
  ℕ, ◌-◌, ◌^◌, ◌≤◌, ◌<◌, ◌≡◌, ◌≢◌, refl, ◌∙◌, ap, true, false, List, [], ◌∷◌, ◌++◌, map, Option,
  some, length, arith, All, All-append, All-append_inv, inl, inr,
}
use timeq.Base.Perms.{gather, All-perm, All_prop}
use timeq.Base.Words.{rank, le_i64}
use timeq.Item.{Item, Location}
use timeq.Item.Order.{Below, Ordered}
use timeq.Btree.{OrderedMap, IsOrderedMap}
use timeq.Bucket.{Bucket, ForkName}
use timeq.Bucket.Queue.{IsQueue}
use timeq.Buckets.Tree.{Buckets}
use timeq.Api.Steps.{Leaves}

pub Ordered-append :
    (xs ys : List Item) → Ordered xs → Ordered ys → All (λ x. Below x ys) xs → Ordered (xs ++ ys)
Ordered-append [] ys ox oy h = oy
Ordered-append (x ∷ xs) ys ox oy h = (
  All-append (λ (y : Item). rank x.key ≤ rank y.key) xs ys ox.0 h.0,
  Ordered-append xs ys ox.1 oy h.1,
)

pub Below-prop : (x : Item) (ys : List Item) → IsProp (Below x ys)
Below-prop x ys = All_prop (λ (y : Item). rank x.key ≤ rank y.key) (λ y. le_prop) ys

pub no_more : (n k : ℕ) → n ≤ k → le_i64 (n - k) 0 ≡ true
no_more n k h = ground (arith, h)

pub some_more : (n k : ℕ) → k < n → n < 2 ^ 63 → le_i64 (n - k) 0 ≡ false
some_more n k h small = ground (arith, h, small)

module _ (M : OrderedMap (List Location)) where
  -- A loaded bucket of the tree, at its key, and the items that the fork holds in it.
  abbrev pub Shelf : Type 0
  Shelf = ℕ × Bucket M × List Item

  abbrev pub stock : List Shelf → List Item
  stock shelves = gather (λ (sh : Shelf). sh.2) shelves

  abbrev pub shelf_keys : List Shelf → List ℕ
  shelf_keys shelves = map (λ (sh : Shelf). sh.0) shelves

  abbrev pub entries_of : List Shelf → List (ℕ × Option (Bucket M))
  entries_of shelves = map (λ (sh : Shelf). (sh.0, some sh.1)) shelves

  -- No item of a bucket is lower than an item of a bucket before it.
  abbrev pub Parted : List Shelf → Type 0
  Parted [] = Unit {0}
  Parted (sh ∷ shelves) = All (λ x. Below x (stock shelves)) sh.2 × Parted shelves

  abbrev pub Apart : List Shelf → Type 0
  Apart [] = Unit {0}
  Apart (sh ∷ shelves) = All (λ (r : Shelf). rank r.0 ≢ rank sh.0) shelves × Apart shelves

  abbrev pub leftovers : List (ℕ × List Item) → List Item
  leftovers rests = gather (λ (r : ℕ × List Item). r.1) rests

  abbrev pub untouched : List Shelf → List (ℕ × List Item)
  untouched shelves = map (λ (sh : Shelf). (sh.0, sh.2)) shelves

  pub leftovers-untouched : (shelves : List Shelf) → leftovers (untouched shelves) ≡ stock shelves
  leftovers-untouched [] = refl
  leftovers-untouched (sh ∷ shelves) = ap (λ xs. sh.2 ++ xs) (leftovers-untouched shelves)

  pub keys-untouched :
      (shelves : List Shelf)
      → map (λ (r : ℕ × List Item). r.0) (untouched shelves) ≡ shelf_keys shelves
  keys-untouched [] = refl
  keys-untouched (sh ∷ shelves) = ap (◌∷◌ sh.0) (keys-untouched shelves)

  -- What was taken of a bucket is not above what comes after the bucket.
  pub taken-Below :
      (taken rest items later : List Item)
      → Perm (taken ++ rest) items
      → All (λ x. Below x later) items
      → All (λ x. Below x later) taken
  taken-Below taken rest items later p h =
      (All-append_inv (λ x. Below x later) taken rest
        (All-perm (λ x. Below x later) (λ x. Below-prop x later) (Perm.symm p) h)).0

module _ (M : OrderedMap (List Location)) (laws : IsOrderedMap M)
    (T : OrderedMap (Option (Bucket M))) (tree_laws : IsOrderedMap T) (fork : ForkName) where
  abbrev pub Stocked : Buckets M T → List (Shelf M) → Type 0
  Stocked s shelves =
      All
        (λ (sh : Shelf M).
          (T.get s.tree sh.0 ≡ some (some sh.1))
          × IsQueue M laws sh.1 fork sh.2
          × (length sh.2 < 2 ^ 63))
        shelves

  -- Buckets of other keys are as they were.
  pub Stocked-others :
      (s s' : Buckets M T) (key : ℕ) (shelves : List (Shelf M))
      → ((j : ℕ) → rank j ≢ rank key → T.get s'.tree j ≡ T.get s.tree j)
      → All (λ (r : Shelf M). rank r.0 ≢ rank key) shelves
      → Stocked s shelves
      → Stocked s' shelves
  Stocked-others s s' key [] same h st = tt
  Stocked-others s s' key (sh ∷ shelves) same h st =
      ((same sh.0 h.0 ∙ st.0.0, st.0.1, st.0.2), Stocked-others s s' key shelves same h.1 st.1)

  pub Leaves-same :
      (s s' : Buckets M T) (key : ℕ) (rest : List Item)
      → T.get s'.tree key ≡ T.get s.tree key
      → Leaves M laws T tree_laws fork s key rest
      → Leaves M laws T tree_laws fork s' key rest
  Leaves-same s s' key rest e (inl (gone, empty)) = inl (e ∙ gone, empty)
  Leaves-same s s' key rest e (inr (b, there, q)) = inr (b, e ∙ there, q)

  pub Stocked-Leaves :
      (s : Buckets M T) (shelves : List (Shelf M))
      → Stocked s shelves
      → All (λ (r : ℕ × List Item). Leaves M laws T tree_laws fork s r.0 r.1) (untouched M shelves)
  Stocked-Leaves s [] st = tt
  Stocked-Leaves s (sh ∷ shelves) st = (inr (sh.1, st.0.0, st.0.1), Stocked-Leaves s shelves st.1)
