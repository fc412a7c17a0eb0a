-- ===== src/Index/Iteration.antt =====
-- Iter of index/index.go visits every location once, in the order of `locations`.
use mathlib.Core.List.{head-eq_of_cons-eq, tail-eq_of_cons-eq}
use timeq.Base.{
  ℕ, zero, suc, ◌+◌, ◌<◌, ◌≡◌, refl, true, false, List, [], ◌∷◌, ◌++◌, length, All, All-map, Run,
  ok, out_of_fuel, ◌>>=◌, arith, if◌then◌else◌,
}
use timeq.Item.{Location}
use timeq.Btree.{OrderedMap}
use timeq.Index.{Index, LocIter, loc_iter, next_loc, next_key, value}
use timeq.Index.Locations.{all_locs, locations, IsValid}

-- What is left of a slice behind its current element.
abbrev pub behind : List Location → List Location
behind [] = []
behind (loc ∷ locs) = locs

abbrev pub NonEmpty : ℕ × List Location → Type 0
NonEmpty (k, locs) = 0 < length locs

module _ (M : OrderedMap (List Location)) where
  -- The locations that the iterator has not reached.
  abbrev pub upcoming : LocIter M → List Location
  upcoming it = behind it.curr ++ all_locs it.rest

  -- The iterator stands on `loc`, and `locs` are to come.
  pub record Stands (it : LocIter M) (loc : Location) (locs : List Location) : Type 0 where
    pub on : value M it ≡ loc
    pub ahead : upcoming it ≡ locs
    pub filled : All NonEmpty it.rest

  first_of_rest :
      (curr : List Location) (rest : List (ℕ × List Location)) (loc : Location)
      (locs : List Location)
      → All NonEmpty rest
      → all_locs rest ≡ loc ∷ locs
      → (it : LocIter M) × (next_key M (record { rest = rest; curr = curr }) rest ≡ (it, true))
        × Stands it loc locs
  unfolding next_key value
  first_of_rest curr [] loc locs h e = absurd (cc)
  first_of_rest curr ((k, []) ∷ rest) loc locs h e = absurd (omega (arith, h.0))
  first_of_rest curr ((k, l ∷ ls) ∷ rest) loc locs h e = (
    record { rest = rest; curr = l ∷ ls },
    refl,
    record { on = head-eq_of_cons-eq e; ahead = tail-eq_of_cons-eq e; filled = h.1 },
  )

  next_loc-step :
      (curr : List Location) (rest : List (ℕ × List Location)) (loc : Location)
      (locs : List Location)
      → All NonEmpty rest
      → behind curr ++ all_locs rest ≡ loc ∷ locs
      → (it : LocIter M) × (next_loc M (record { rest = rest; curr = curr }) ≡ (it, true))
        × Stands it loc locs
  unfolding next_loc value
  next_loc-step [] rest loc locs h e = first_of_rest [] rest loc locs h e
  next_loc-step (c ∷ []) rest loc locs h e = first_of_rest (c ∷ []) rest loc locs h e
  next_loc-step (c ∷ n ∷ more) rest loc locs h e = (
    record { rest = rest; curr = n ∷ more },
    refl,
    record { on = head-eq_of_cons-eq e; ahead = tail-eq_of_cons-eq e; filled = h },
  )

  next_loc-end :
      (curr : List Location) (rest : List (ℕ × List Location))
      → All NonEmpty rest
      → behind curr ++ all_locs rest ≡ []
      → next_loc M (record { rest = rest; curr = curr })
        ≡ (record { rest = rest; curr = curr }, false)
  unfolding next_loc
  next_loc-end [] [] h e = refl
  next_loc-end (c ∷ []) [] h e = refl
  next_loc-end [] ((k, []) ∷ rest) h e = absurd (omega (arith, h.0))
  next_loc-end (c ∷ []) ((k, []) ∷ rest) h e = absurd (omega (arith, h.0))
  next_loc-end [] ((k, l ∷ ls) ∷ rest) h e = absurd (cc)
  next_loc-end (c ∷ []) ((k, l ∷ ls) ∷ rest) h e = absurd (cc)
  next_loc-end (c ∷ n ∷ more) rest h e = absurd (cc)

  -- Next moves on to the next location.
  pub next_loc-some :
      (it : LocIter M) (loc : Location) (locs : List Location)
      → All NonEmpty it.rest
      → upcoming it ≡ loc ∷ locs
      → (it' : LocIter M) × (next_loc M it ≡ (it', true)) × Stands it' loc locs
  next_loc-some it loc locs h e = next_loc-step it.curr it.rest loc locs h e

  -- Behind the last location Next returns false and changes nothing.
  pub next_loc-none :
      (it : LocIter M) → All NonEmpty it.rest → upcoming it ≡ [] → next_loc M it ≡ (it, false)
  next_loc-none it h e = next_loc-end it.curr it.rest h e

  pub loc_iter-NonEmpty : (i : Index M) → IsValid M i → All NonEmpty (loc_iter M i).rest
  unfolding loc_iter
  loc_iter-NonEmpty i v = All-map (M.entries i.m) (λ (k, locs) g. g.0) v.grouped

  pub loc_iter-upcoming : (i : Index M) → upcoming (loc_iter M i) ≡ locations M i
  unfolding loc_iter
  loc_iter-upcoming i = refl

  -- `for iter.Next() { ... iter.Value() ... }`, for at most `fuel` rounds.
  unfoldable pub visit : ℕ → LocIter M → Run (List Location)
  unfolding next_loc value
  visit zero it = out_of_fuel
  visit (suc fuel) it =
      let (it', more) = next_loc M it in
      let rest = visit fuel it' >>= λ locs. ok (value M it' ∷ locs) in if more then rest else ok []

  visit_rest :
      (fuel : ℕ) (it : LocIter M) (locs : List Location)
      → All NonEmpty it.rest
      → upcoming it ≡ locs
      → length locs < fuel
      → visit fuel it ≡ ok locs
  unfolding visit
  visit_rest zero it locs h e f = absurd (omega arith)
  visit_rest (suc fuel) it [] h e f = rw (next_loc-none it h e)
  visit_rest (suc fuel) it (loc ∷ locs) h e f =
      let (it', moved, s) = next_loc-some it loc locs h e in
      rw (moved) (rw (visit_rest fuel it' locs s.filled s.ahead (omega arith), s.on))

  -- The loop over the iterator of a valid index ends and yields the locations of the index in
  -- their order, each once.
  pub visit-locations :
      (i : Index M)
      → IsValid M i
      → visit (length (locations M i) + 1) (loc_iter M i) ≡ ok (locations M i)
  visit-locations i v =
      visit_rest (length (locations M i) + 1) (loc_iter M i) (locations M i) (loc_iter-NonEmpty i v)
        (loc_iter-upcoming i) (omega arith)
