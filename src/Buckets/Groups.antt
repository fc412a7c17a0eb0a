-- ===== src/Buckets/Groups.antt =====
-- pushSorted of buckets.go against its description: each run of items with one bucket is pushed
-- once, as a whole.
use timeq.Base.{
  ℕ, zero, suc, ◌+◌, ◌≤◌, ◌<◌, ◌^◌, ◌≡◌, ◌≢◌, refl, sym, ◌∙◌, ap, subst, List, [], ◌∷◌, ◌++◌,
  Option, none, length, take, drop, take-append, drop-append, length-append, arith, All, All-map,
  Run, ok, ◌>>=◌, ◌==◌, ==→eq, if◌then◌else◌, Bool-cases, inl, inr,
}
use timeq.Base.Words.{rank, rank_injective}
use timeq.Item.{Item}
use timeq.Buckets.{BucketStore, binsplit, push_part, after_part, push_loop, push_sorted}
use timeq.Buckets.Binsplit.{InPart, PastPart, binsplit-append}

-- A bucket's key and the items that go to it.
abbrev pub Group : Type 0
Group = ℕ × List Item

abbrev pub flatten : List Group → List Item
flatten [] = []
flatten ((k, part) ∷ gs) = part ++ flatten gs

-- An item in front of the groups.
abbrev pub join_group : (ℕ → ℕ) → Item → List Group → List Group
join_group fn it [] = (fn it.key, it ∷ []) ∷ []
join_group fn it ((k, part) ∷ gs) =
    if fn it.key == k then (k, it ∷ part) ∷ gs else (fn it.key, it ∷ []) ∷ (k, part) ∷ gs

-- The runs of items with the same bucket.
abbrev pub groups : (ℕ → ℕ) → List Item → List Group
groups fn [] = []
groups fn (it ∷ items) = join_group fn it (groups fn items)

-- The buckets of the items never go down.
abbrev pub Climbs : (ℕ → ℕ) → List Item → Type 0
Climbs fn [] = Unit {0}
Climbs fn (it ∷ items) =
    All (λ later. rank (fn it.key) ≤ rank (fn later.key)) items × Climbs fn items

module _ (fn : ℕ → ℕ) where
  -- Groups that are not empty, each with a bucket that no later item has.
  abbrev Separate : List Group → Type 0
  Separate [] = Unit {0}
  Separate ((k, part) ∷ gs) =
      (0 < length part) × All (InPart k fn) part × All (PastPart k fn) (flatten gs) × Separate gs

  flatten-join_group :
      (it : Item) (gs : List Group) → flatten (join_group fn it gs) ≡ it ∷ flatten gs
  flatten-join_group it [] = refl
  flatten-join_group it ((k, part) ∷ gs) = elim (Bool-cases (fn it.key == k)) [
    | inl e ↦ rw e
    | inr e ↦ rw e
  ]

  flatten-groups : (items : List Item) → flatten (groups fn items) ≡ items
  flatten-groups [] = refl
  flatten-groups (it ∷ items) =
      flatten-join_group it (groups fn items) ∙ ap (◌∷◌ it) (flatten-groups items)

  join_group-Separate :
      (it : Item) (gs : List Group)
      → Separate gs
      → All (λ later. rank (fn it.key) ≤ rank (fn later.key)) (flatten gs)
      → Climbs fn (flatten gs)
      → fn it.key < 2 ^ 64
      → All (λ later. fn later.key < 2 ^ 64) (flatten gs)
      → Separate (join_group fn it gs)
  join_group-Separate it [] s low c own bounded = (omega arith, (refl, tt), tt, tt)
  join_group-Separate it ((k, []) ∷ gs) s low c own bounded = absurd (omega (arith, s.0))
  join_group-Separate it ((k, p ∷ ps) ∷ gs) (some_items, here, past, rest) low c own bounded =
      elim (Bool-cases (fn it.key == k)) [
        | inl e ↦ rw e (omega arith, (==→eq _ _ e, here), past, rest)
        | inr e ↦
            let other : fn p.key ≢ fn it.key = λ q. ground (arith, e, here.0, q) in
            let beyond : All (PastPart (fn it.key) fn) (ps ++ flatten gs) =
              All-map (ps ++ flatten gs)
                (λ later up q. other (
                  rank_injective (fn p.key) (fn it.key) bounded.0 own
                    (omega (arith, up, low.0, ap rank q))))
                c.0 in
            rw e (omega arith, (refl, tt), (other, beyond), (some_items, here, past, rest))
      ]

  groups-Separate :
      (items : List Item)
      → Climbs fn items
      → All (λ it. fn it.key < 2 ^ 64) items
      → Separate (groups fn items)
  groups-Separate [] c bounded = tt
  groups-Separate (it ∷ items) c bounded =
      let same = sym (flatten-groups items) in
      join_group-Separate it (groups fn items) (groups-Separate items c.1 bounded.1)
        (subst (All (λ later. rank (fn it.key) ≤ rank (fn later.key))) same c.0)
        (subst (Climbs fn) same c.1) bounded.0
        (subst (All (λ later. fn later.key < 2 ^ 64)) same bounded.1)

  module _ {S E : Type 0} (store : BucketStore S E) (error_mode : ℕ) where
    -- Each group is pushed to its bucket, in order, up to the first error that stops the loop.
    abbrev pub push_groups : S → List Group → Run (S × Option E)
    push_groups s [] = ok (s, none)
    push_groups s ((k, part) ∷ gs) =
        push_part store error_mode fn s k part
        >>= after_part store error_mode fn (λ s'. push_groups s' gs)

    push_loop-Separate :
        (fuel : ℕ) (s : S) (gs : List Group)
        → Separate gs
        → length (flatten gs) < fuel
        → push_loop store error_mode fn fuel s (flatten gs) ≡ push_groups s gs
    unfolding push_loop
    push_loop-Separate zero s gs p h = absurd (omega arith)
    push_loop-Separate (suc fuel) s [] p h = refl
    push_loop-Separate (suc fuel) s ((k, []) ∷ gs) p h = absurd (omega (arith, p.0))
    push_loop-Separate (suc fuel) s ((k, it ∷ part) ∷ gs) (some_items, here, past, rest) h =
        ap (λ r. r >>= round) split
        ∙ (λ i.
            push_part store error_mode fn s (here.0 i) (take-append (it ∷ part) (flatten gs) i)
            >>= after_part store error_mode fn (λ s'.
              push_loop store error_mode fn fuel s' (drop-append (it ∷ part) (flatten gs) i)))
        ∙ (λ i.
            push_part store error_mode fn s k (it ∷ part)
            >>= after_part store error_mode fn (λ s'. push_loop-Separate fuel s' gs rest shorter i))
      where
        xs : List Item
        xs = (it ∷ part) ++ flatten gs

        shorter : length (flatten gs) < fuel
        shorter = omega (arith, h, length-append (it ∷ part) (flatten gs))

        round : ℕ → Run (S × Option E)
        round n =
            push_part store error_mode fn s (fn it.key) (take n xs)
            >>= after_part store error_mode fn
                (λ s'. push_loop store error_mode fn fuel s' (drop n xs))

        split : binsplit ((it ∷ part) ++ flatten gs) (fn it.key) fn ≡ ok (length (it ∷ part))
        split =
            ap (λ comp. binsplit ((it ∷ part) ++ flatten gs) comp fn) here.0
            ∙ binsplit-append k fn it part (flatten gs) here past

    pub push_sorted-groups :
        (s : S) (items : List Item)
        → Climbs fn items
        → All (λ it. fn it.key < 2 ^ 64) items
        → push_sorted store error_mode fn s items ≡ push_groups s (groups fn items)
    unfolding push_sorted
    push_sorted-groups s items c bounded =
        ap (λ xs. push_loop store error_mode fn (length items + 1) s xs)
          (sym (flatten-groups items))
        ∙ push_loop-Separate (length items + 1) s (groups fn items)
            (groups-Separate items c bounded)
            (omega (arith, ap (λ xs. length xs) (flatten-groups items)))
