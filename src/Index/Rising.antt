-- ===== src/Index/Rising.antt =====
-- The locations of a valid index stand in the order of their keys.
use timeq.Base.{ℕ, ◌≤◌, ◌<◌, ◌≡◌, sym, List, [], ◌∷◌, ◌++◌, All, arith, subst}
use timeq.Base.Words.{rank}
use timeq.Item.{Location}
use timeq.Btree.{OrderedMap}
use timeq.Btree.Pairs.{Ascending}
use timeq.Index.{Index}
use timeq.Index.Locations.{IsValid, locations, all_locs, Grouped}

abbrev pub First : ℕ → List Location → Type 0
First w [] = Unit {0}
First w (loc ∷ locs) = w ≤ rank loc.key

abbrev pub RisingLocs : List Location → Type 0
RisingLocs [] = Unit {0}
RisingLocs (loc ∷ locs) = First (rank loc.key) locs × RisingLocs locs

First-group :
    (w k : ℕ) (ls tail : List Location)
    → w ≤ rank k
    → All (λ loc. rank loc.key ≡ rank k) ls
    → First w tail
    → First w (ls ++ tail)
First-group w k [] tail le h f = f
First-group w k (l ∷ ls) tail le h f = omega (arith, h.0)

group-RisingLocs :
    (k : ℕ) (ls tail : List Location)
    → All (λ loc. rank loc.key ≡ rank k) ls
    → First (rank k) tail
    → RisingLocs tail
    → RisingLocs (ls ++ tail)
group-RisingLocs k [] tail h f r = r
group-RisingLocs k (l ∷ ls) tail h f r = (
  First-group (rank l.key) k ls tail (omega (arith, h.0)) h.1
      (subst (λ w. First w tail) (sym h.0) f),
  group-RisingLocs k ls tail h.1 f r,
)

First-entries :
    (k : ℕ) (es : List (ℕ × List Location))
    → All (λ e. rank k < rank e.0) es
    → All Grouped es
    → First (rank k) (all_locs es)
First-entries k [] a g = tt
First-entries k ((j, []) ∷ es) a g = absurd (omega (arith, g.0.0))
First-entries k ((j, l ∷ ls) ∷ es) a g = omega (arith, a.0, g.0.1.0)

entries-RisingLocs :
    (es : List (ℕ × List Location)) → Ascending es → All Grouped es → RisingLocs (all_locs es)
entries-RisingLocs [] a g = tt
entries-RisingLocs ((k, ls) ∷ es) a g =
    group-RisingLocs k ls (all_locs es) g.0.1 (First-entries k es a.0 g.1)
      (entries-RisingLocs es a.1 g.1)

module _ (M : OrderedMap (List Location)) where
  pub locations-RisingLocs : (i : Index M) → IsValid M i → RisingLocs (locations M i)
  locations-RisingLocs i v = entries-RisingLocs (M.entries i.m) v.ascending v.grouped
