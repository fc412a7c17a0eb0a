-- ===== src/Index.antt =====
-- index/index.go: the in-memory index, an ordered map from the key of a batch to the locations of
-- the batches of that key, oldest first. The slices of the map are values here: that Copy shares
-- their arrays between two indexes is not modelled.
pub mod Stable
pub mod Locations
pub mod Slots
pub mod Iteration
pub mod Rising
pub mod Codec
use timeq.Base.{
  ℕ, zero, suc, ◌+◌, ◌-◌, Bool, true, false, List, [], ◌∷◌, ◌++◌, Option, none, some, length, Run,
  ok, panic, out_of_fuel, ◌>>=◌, if◌then◌else◌, ltb, ◌⊎◌, inl, inr, ◌^◌,
}
use timeq.Base.Words.{add64, sub64, lt_i64}
use timeq.Item.{Location, Item, header_size, trailer_size}
use timeq.Btree.{OrderedMap}
use timeq.Vlog.{Log, LogError}
use timeq.Vlog.Iter.{Iter, at, next}

abbrev pub no_location : Location
no_location = record { key = 0; off = 0; len = 0 }

pub record Trailer : Type 0 where
  pub total_entries : ℕ

-- The slice that Get returns, nil for a missing key.
abbrev pub slot : Option (List Location) → List Location
slot none = []
slot (some locs) = locs

module _ (M : OrderedMap (List Location)) where
  pub record Index : Type 0 where
    pub m : M.Map
    pub len : ℕ
    pub nentries : ℕ

  abbrev pub empty : Index
  empty = record { m = M.empty; len = 0; nentries = 0 }

  -- `oldLocs, _ := i.m.Get(key)`
  abbrev pub locs_at : Index → ℕ → List Location
  locs_at i key = slot (M.get i.m key)

  unfoldable pub set : Index → Location → Index
  set i loc = record i {
    m = M.set i.m loc.key (locs_at i loc.key ++ (loc ∷ []));
    len = add64 i.len loc.len;
    nentries = add64 i.nentries loc.len;
  }

  -- Delete once the locations of the key are known. `oldLocs[0]` of an empty slice panics.
  unfoldable pub delete_first : Index → ℕ → List Location → Run (Index × Location)
  delete_first i key [] = panic
  delete_first i key (loc ∷ rest) =
      let counted : Index = record i {
        len = sub64 i.len loc.len;
        nentries = add64 i.nentries loc.len;
      } in
      elim rest [
        | [] ↦ ok (record counted { m = M.delete i.m key }, loc)
        | next ∷ more ↦ ok (record counted { m = M.set i.m key (next ∷ more) }, loc)
      ]

  unfoldable pub delete : Index → ℕ → Run (Index × Location)
  unfolding delete_first
  delete i key = elim (M.get i.m key) [
    | none ↦ ok (i, no_location)
    | some locs ↦ delete_first i key locs
  ]

  abbrev pub trailer : Index → Trailer
  trailer i = record { total_entries = i.len }

  unfoldable pub copy : Index → Index
  copy i = record { m = i.m; len = i.len; nentries = i.nentries }

  -- Iter of the index: the pairs that the map's iterator has not reached, and the current slice.
  pub record LocIter : Type 0 where
    pub rest : List (ℕ × List Location)
    pub curr : List Location

  unfoldable pub loc_iter : Index → LocIter
  loc_iter i = record { rest = M.entries i.m; curr = [] }

  -- Iter.Next when the current slice has no further location.
  unfoldable pub next_key : LocIter → List (ℕ × List Location) → LocIter × Bool
  next_key it [] = (it, false)
  next_key it ((k, locs) ∷ rest) = (record { rest = rest; curr = locs }, true)

  -- Iter.Next, by the current slice.
  unfoldable pub next_in : LocIter → List Location → LocIter × Bool
  unfolding next_key
  next_in it (loc ∷ next ∷ more) = (record it { curr = next ∷ more }, true)
  next_in it curr = next_key it it.rest

  unfoldable pub next_loc : LocIter → LocIter × Bool
  unfolding next_in
  next_loc it = next_in it it.curr

  abbrev pub head_or : Location → List Location → Location
  head_or d [] = d
  head_or d (loc ∷ locs) = loc

  unfoldable pub value : LocIter → Location
  value it = head_or no_location it.curr

  -- The variables of FromVlog's loop.
  pub record Scan : Type 0 where
    pub index : Index
    pub prev_loc : Location
    pub last_loc : Location
    pub is_initial : Bool

  unfoldable pub scan_item : Scan → Item → Scan
  unfolding set
  scan_item s it =
      let s1 : Scan =
        if lt_i64 it.key s.prev_loc.key
        then record s {
          index = set s.index s.last_loc;
          last_loc = record { key = it.key; off = s.prev_loc.off; len = 0 };
        }
        else s in
      record s1 {
        last_loc = record {
          key = if s1.is_initial then it.key else s1.last_loc.key;
          off = s1.last_loc.off;
          len = add64 s1.last_loc.len 1;
        };
        is_initial = false;
        prev_loc = record {
          key = it.key;
          off = add64 s1.prev_loc.off (add64 (add64 header_size (length it.blob)) trailer_size);
          len = s1.prev_loc.len;
        };
      }

  -- The rounds of FromVlog; each moves the iterator forward in the log.
  unfoldable pub scan_loop : ℕ → Log → Iter → Scan → Run (Scan × Option LogError)
  unfolding scan_item
  scan_loop zero l li s = out_of_fuel
  scan_loop (suc fuel) l li s = do
    (li', more) ← next l li
    let rest = scan_loop fuel l li' (scan_item s li'.item)
    if more then rest else ok (s, li'.err)

  -- The last run is set after the loop.
  unfoldable pub finish_scan : Scan → Index
  unfolding set
  finish_scan s = if ltb 0 s.last_loc.len then set s.index s.last_loc else s.index

  abbrev pub scan_start : Scan
  scan_start = record {
    index = empty;
    prev_loc = no_location;
    last_loc = no_location;
    is_initial = true;
  }

  -- FromVlog; `^item.Off(0)` is the largest uint64.
  unfoldable pub from_vlog : Log → Run (Index ⊎ LogError)
  unfolding scan_loop finish_scan
  from_vlog l = do
    (s, e) ←
        scan_loop (l.size + 1) l (at (record { key = 0; off = 0; len = 2 ^ 64 - 1 }) true)
          scan_start
    ok (elim e [ none ↦ inl (finish_scan s) | some x ↦ inr x ])
