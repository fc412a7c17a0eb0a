-- ===== src/Btree.antt =====
-- What the code relies on of btree.Map (github.com/tidwall/btree): a map that iterates over its
-- keys in ascending order. It is a parameter of the model; its keys are int64 patterns.
pub mod Pairs
pub mod Places
use timeq.Base.{
  ℕ, ◌≡◌, ◌<◌, refl, Bool, List, [], ◌∷◌, ◌++◌, Option, none, some, ltb, ◌==◌, if◌then◌else◌, All,
}
use timeq.Base.Words.{rank}

pub record OrderedMap (V : Type 0) : Type 1 where
  pub Map : Type 0
  pub empty : Map
  pub get : Map → ℕ → Option V
  pub set : Map → ℕ → V → Map
  pub delete : Map → ℕ → Map
  -- The pairs in the order of iteration.
  pub entries : Map → List (ℕ × V)

module _ {V : Type 0} where
  unfoldable pub lookup : ℕ → List (ℕ × V) → Option V
  lookup k [] = none
  lookup k ((j, w) ∷ es) = if rank k == rank j then some w else lookup k es

  unfoldable pub insert : ℕ → V → List (ℕ × V) → List (ℕ × V)
  insert k v [] = (k, v) ∷ []
  insert k v ((j, w) ∷ es) =
      if rank k == rank j
      then (k, v) ∷ es
      else if ltb (rank k) (rank j)
      then (k, v) ∷ (j, w) ∷ es
      else (j, w) ∷ insert k v es

  unfoldable pub remove : ℕ → List (ℕ × V) → List (ℕ × V)
  remove k [] = []
  remove k ((j, w) ∷ es) = if rank k == rank j then es else (j, w) ∷ remove k es

-- The documented behaviour: Get, Set and Delete on the pairs in ascending order of their keys.
pub record IsOrderedMap {V : Type 0} (M : OrderedMap V) : Type 0 where
  pub entries-empty : M.entries M.empty ≡ []
  pub get-lookup : (m : M.Map) (k : ℕ) → M.get m k ≡ lookup k (M.entries m)
  pub entries-set : (m : M.Map) (k : ℕ) (v : V) → M.entries (M.set m k v) ≡ insert k v (M.entries m)
  pub entries-delete : (m : M.Map) (k : ℕ) → M.entries (M.delete m k) ≡ remove k (M.entries m)

-- A list of pairs meets the description.
abbrev pub pairs_map : (V : Type 0) → OrderedMap V
pairs_map V = record {
  Map = List (ℕ × V);
  empty = [];
  get = λ m k. lookup k m;
  set = λ m k v. insert k v m;
  delete = λ m k. remove k m;
  entries = λ m. m;
}

pub pairs_map-IsOrderedMap : (V : Type 0) → IsOrderedMap (pairs_map V)
pairs_map-IsOrderedMap V = record {
  entries-empty = refl;
  get-lookup = λ m k. refl;
  entries-set = λ m k v. refl;
  entries-delete = λ m k. refl;
}
