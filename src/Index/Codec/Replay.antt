-- ===== src/Index/Codec/Replay.antt =====
-- Load of index/index.go: the records of an index log applied one after the other.
use mathlib.Core.List.{append_assoc, perm_middle, Perm}
use mathlib.Core.List.Perm
use timeq.Base.{
  ℕ, zero, suc, ◌+◌, ◌≤◌, ◌<◌, ◌≡◌, refl, sym, ◌∙◌, ap, false, List, [], ◌∷◌, ◌++◌, Option, none,
  some, length, length-append, arith, Run, ok, panic, out_of_fuel, ◌>>=◌, lt→ltb, ◌==◌, All, map,
  subst,
}
use timeq.Item.{Location}
use timeq.Btree.{OrderedMap, IsOrderedMap}
use timeq.Index.{Index, Trailer, empty, set}
use timeq.Index.Locations.{IsValid, locations, set_lem, all_locs, total_len, Grouped}
use timeq.Btree.Pairs.{Ascending}
use timeq.Base.Words.{u64}
use timeq.Index.Codec.{
  location_size, record_of, Reader, FileError, unexpected_eof, apply, load_loop, load,
}
use timeq.Index.Codec.Records.{IsStorable, next-record_of, length-record_of}

-- A log with the given trailers.
abbrev pub log_of : List (Location × Trailer) → List ℕ
log_of [] = []
log_of ((loc, t) ∷ rs) = record_of loc t ++ log_of rs

-- What reading ends with: a part of a record is an error, and its end is none.
abbrev pub tail_error : List ℕ → Option FileError
tail_error [] = none
tail_error (b ∷ bs) = some unexpected_eof

module _ (M : OrderedMap (List Location)) where
  -- The records of a log, applied in order.
  abbrev pub replay : Index M → List (Location × Trailer) → Run (Index M)
  replay i [] = ok i
  replay i ((loc, t) ∷ rs) = apply M i loc >>= λ i'. replay i' rs

  load_tail :
      (fuel : ℕ) (torn : List ℕ) (i : Index M)
      → length torn < location_size
      → load_loop M (suc fuel) (record { rest = torn; err = none }) i ≡ ok (i, tail_error torn)
  unfolding load_loop
  load_tail fuel [] i h = refl
  load_tail fuel (b ∷ bs) i h = rw (lt→ltb (length (b ∷ bs)) location_size h) (ground arith)

  load_records :
      (fuel : ℕ) (rs : List (Location × Trailer)) (torn : List ℕ) (i : Index M)
      → All (λ r. IsStorable r.0) rs
      → length torn < location_size
      → length rs < fuel
      → load_loop M fuel (record { rest = log_of rs ++ torn; err = none }) i
        ≡ (replay i rs >>= λ i'. ok (i', tail_error torn))
  unfolding load_loop apply
  load_records zero rs torn i s h f = absurd (omega arith)
  load_records (suc fuel) [] torn i s h f = load_tail fuel torn i h
  load_records (suc fuel) ((loc, t) ∷ rs) torn i s h f =
      ap (λ r. load_loop M (suc fuel) (record { rest = r; err = none }) i)
        (append_assoc (record_of loc t) (log_of rs) torn)
      ∙ rw (next-record_of loc t (log_of rs ++ torn) none s.0)
          (afterwards (λ i'. load_records fuel rs torn i' s.1 h (omega arith)) (apply M i loc))
    where
      rests : Reader
      rests = record { rest = log_of rs ++ torn; err = none }

      afterwards :
          ((i' : Index M)
            → load_loop M fuel rests i' ≡ (replay i' rs >>= λ i''. ok (i'', tail_error torn)))
          → (o : Run (Index M))
          → (o >>= λ i'. load_loop M fuel rests i')
            ≡ ((o >>= λ i'. replay i' rs) >>= λ i'. ok (i', tail_error torn))
      afterwards later (ok i') = later i'
      afterwards later panic = refl
      afterwards later out_of_fuel = refl

  length-log_of : (rs : List (Location × Trailer)) → length rs ≤ length (log_of rs)
  length-log_of [] = omega arith
  length-log_of ((loc, t) ∷ rs) =
      omega (
        arith,
        length-append (record_of loc t) (log_of rs),
        length-record_of loc t,
        length-log_of rs,
      )

  -- Load applies every whole record of the file in order, where the locations fit a record. Bytes
  -- of a record that was cut short by a crash are dropped, and reported as an error.
  pub load-replay :
      (rs : List (Location × Trailer)) (torn : List ℕ)
      → All (λ r. IsStorable r.0) rs
      → length torn < location_size
      → load M (log_of rs ++ torn) ≡ (replay (empty M) rs >>= λ i. ok (i, tail_error torn))
  unfolding load
  load-replay rs torn s h =
      load_records (length (log_of rs ++ torn) + 1) rs torn (empty M) s h
        (omega (arith, length-append (log_of rs) torn, length-log_of rs))

module _ (M : OrderedMap (List Location)) (laws : IsOrderedMap M) where
  pub empty-IsValid : IsValid M (empty M)
  empty-IsValid = record {
    ascending = subst Ascending (sym laws.entries-empty) tt;
    grouped = subst (All Grouped) (sym laws.entries-empty) tt;
    counted = ap (λ es. u64 (total_len (all_locs es))) (sym laws.entries-empty);
  }

  -- Records of batches that are not empty, applied one after the other to a valid index, add
  -- exactly these batches and give a valid index.
  pub replay-perm :
      (rs : List (Location × Trailer)) (i : Index M)
      → IsValid M i
      → All (λ r. 0 < r.0.len) rs
      → (i' : Index M) × (replay M i rs ≡ ok i')
        × IsValid M i'
        × Perm (locations M i') (map (λ r. r.0) rs ++ locations M i)
  unfolding apply
  replay-perm [] i v h = (i, refl, v, Perm.refl (locations M i))
  replay-perm ((loc, t) ∷ rs) i v h =
      let added = set_lem M laws i v loc in
      let (i', run, v', same) = replay-perm rs (set M i loc) added.0 h.1 in
      let kept : (loc.len == 0) ≡ false = ground (arith, h.0) in
      (
        i',
        rw kept run,
        v',
        Perm.trans same (
            Perm.trans (Perm.append (Perm.refl (map (λ r. r.0) rs)) added.1)
              (perm_middle (map (λ r. r.0) rs) (locations M i))),
      )
