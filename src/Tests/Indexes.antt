-- ===== src/Tests/Indexes.antt =====
-- An index of two batches with one key and one with another.
use timeq.Base.{ℕ, ◌≡◌, refl, List, [], ◌∷◌, ◌++◌, arith, All, ok, ◌>>=◌, none}
use mathlib.Core.List.{Perm}
use timeq.Item.{Location}
use timeq.Btree.{lookup, OrderedMap, pairs_map, pairs_map-IsOrderedMap}
use timeq.Index.{Index, Trailer, empty, set, delete, loc_iter}
use timeq.Index.Stable.{SameOrder}
use timeq.Index.Locations.{IsValid, locations, set_lem, delete_lem}
use timeq.Index.Iteration.{visit, visit-locations}
use timeq.Index.Codec.{written, Writer, write_index, load, read_trailer}
use timeq.Index.Codec.Records.{IsStorable}
use timeq.Index.Codec.Replay.{log_of, tail_error, replay, load-replay}
use timeq.Index.Codec.Rewrite.{load-write_index, write_index-trailer}

abbrev pub Locs : OrderedMap (List Location)
Locs = pairs_map (List Location)

abbrev pub loc_1 : Location
loc_1 = record { key = 4; off = 0; len = 2 }

abbrev loc_2 : Location
loc_2 = record { key = 4; off = 40; len = 1 }

abbrev loc_3 : Location
loc_3 = record { key = 1; off = 60; len = 3 }

abbrev indexed : Index Locs
indexed = record { m = (1, loc_3 ∷ []) ∷ (4, loc_1 ∷ loc_2 ∷ []) ∷ []; len = 6; nentries = 6 }

indexed-IsValid : IsValid Locs indexed
indexed-IsValid = record {
  ascending = ((omega arith, tt), (tt, tt));
  grouped = ((omega arith, (refl, tt)), ((omega arith, (refl, (refl, tt))), tt));
  counted = refl;
}

set_lem_example :
    IsValid Locs (set Locs indexed loc_2)
    × Perm (locations Locs (set Locs indexed loc_2)) (loc_2 ∷ locations Locs indexed)
    × SameOrder (locations Locs (set Locs indexed loc_2)) (locations Locs indexed ++ (loc_2 ∷ []))
set_lem_example =
    set_lem Locs (pairs_map-IsOrderedMap (List Location)) indexed indexed-IsValid loc_2

delete_lem_example :
    (i' : Index Locs) × (delete Locs indexed 4 ≡ ok (i', loc_1))
    × IsValid Locs i'
    × Perm (loc_1 ∷ locations Locs i') (locations Locs indexed)
    × SameOrder (loc_1 ∷ locations Locs i') (locations Locs indexed)
unfolding lookup
delete_lem_example =
    delete_lem Locs (pairs_map-IsOrderedMap (List Location)) indexed indexed-IsValid 4 loc_1
      (loc_2 ∷ []) refl

visit-locations_example : visit Locs 4 (loc_iter Locs indexed) ≡ ok (locations Locs indexed)
visit-locations_example = visit-locations Locs indexed indexed-IsValid

abbrev pub total : ℕ → Trailer
total n = record { total_entries = n }

abbrev two_records : List (Location × Trailer)
two_records = (loc_1, total 2) ∷ (record { key = 4; off = 0; len = 0 }, total 0) ∷ []

pub loc_1-IsStorable : IsStorable loc_1
loc_1-IsStorable = record {
  key_bound = omega arith;
  off_bound = omega arith;
  len_bound = omega arith;
}

two_records-IsStorable : All (λ r. IsStorable r.0) two_records
two_records-IsStorable = (
  loc_1-IsStorable,
  (record { key_bound = omega arith; off_bound = omega arith; len_bound = omega arith }, tt),
)

load-replay_example :
    load Locs (log_of two_records ++ (0 ∷ 0 ∷ []))
    ≡ (replay Locs (empty Locs) two_records >>= λ i. ok (i, tail_error (0 ∷ 0 ∷ [])))
load-replay_example = load-replay Locs two_records (0 ∷ 0 ∷ []) two_records-IsStorable (omega arith)

indexed-IsStorable : All IsStorable (locations Locs indexed)
indexed-IsStorable = (
  record { key_bound = omega arith; off_bound = omega arith; len_bound = omega arith },
  (
    loc_1-IsStorable,
    (record { key_bound = omega arith; off_bound = omega arith; len_bound = omega arith }, tt),
  ),
)

load-write_index_example :
    (w : Writer) × (i' : Index Locs) × (write_index Locs indexed [] 4 (λ n. written) ≡ ok (w, none))
    × (load Locs w.file ≡ ok (i', none))
    × IsValid Locs i'
    × Perm (locations Locs i') (locations Locs indexed)
load-write_index_example =
    load-write_index Locs (pairs_map-IsOrderedMap (List Location)) (λ n. written) (λ n. refl)
      indexed indexed-IsValid indexed-IsStorable (omega arith, (omega arith, (omega arith, tt)))

write_index-trailer_example :
    (w : Writer) × (write_index Locs indexed [] 4 (λ n. written) ≡ ok (w, none))
    × (read_trailer w.file ≡ ok (total 2))
write_index-trailer_example =
    write_index-trailer Locs (pairs_map-IsOrderedMap (List Location)) (λ n. written) (λ n. refl)
      indexed indexed-IsValid loc_3 (loc_1 ∷ loc_2 ∷ []) refl (omega arith)
