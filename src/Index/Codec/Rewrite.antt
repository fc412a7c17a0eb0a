-- ===== src/Index/Codec/Rewrite.antt =====
-- WriteIndex of index/writer.go: an index written to a file, and read back.
use mathlib.Core.List.{append_assoc, append-nil, Perm}
use timeq.Base.{
  ℕ, zero, suc, ◌+◌, ◌^◌, ◌<◌, ◌≡◌, refl, sym, ◌∙◌, ap, subst, true, List, [], ◌∷◌, ◌++◌, map, none,
  length, arith, ok, All,
}
use timeq.Base.Words.{add64, u32}
use timeq.Item.{Location}
use timeq.Btree.{OrderedMap, IsOrderedMap}
use timeq.Index.{Index, empty, LocIter, Trailer, loc_iter, next_loc}
use timeq.Index.Locations.{IsValid, locations, all_locs}
use timeq.Index.Iteration.{
  NonEmpty, upcoming, next_loc-some, next_loc-none, loc_iter-NonEmpty, loc_iter-upcoming,
}
use timeq.Index.Codec.{
  WriteAnswer, written, Writer, record_of, after_push, write_loop, write_index, load, read_trailer,
}
use timeq.Index.Codec.Records.{IsStorable, read_trailer-append}
use timeq.Index.Codec.Replay.{log_of, load-replay, replay-perm, empty-IsValid}

-- The records of WriteIndex: their trailers number them.
abbrev pub numbered : ℕ → List Location → List (Location × Trailer)
numbered n [] = []
numbered n (loc ∷ locs) = (loc, record { total_entries = n }) ∷ numbered (add64 n 1) locs

map-numbered :
    (n : ℕ) (locs : List Location) → map (λ (r : Location × Trailer). r.0) (numbered n locs) ≡ locs
map-numbered n [] = refl
map-numbered n (loc ∷ locs) = ap (◌∷◌ loc) (map-numbered (add64 n 1) locs)

module _ (M : OrderedMap (List Location)) (os : ℕ → WriteAnswer)
    (all_written : (n : ℕ) → os n ≡ written) where
  write_rest :
      (fuel : ℕ) (it : LocIter M) (w : Writer) (n : ℕ) (locs : List Location)
      → All NonEmpty it.rest
      → upcoming M it ≡ locs
      → length locs < fuel
      → write_loop M fuel it w n os
        ≡ ok (record w { file = w.file ++ log_of (numbered n locs) }, none)
  unfolding write_loop after_push
  write_rest zero it w n locs h e f = absurd (omega arith)
  write_rest (suc fuel) it w n [] h e f =
      rw (next_loc-none M it h e) (λ i. ok (record w { file = sym (append-nil w.file) i }, none))
  write_rest (suc fuel) it w n (loc ∷ locs) h e f =
      let (it', moved, s) = next_loc-some M it loc locs h e in
      let w' : Writer = record w {
        file = w.file ++ record_of loc (record { total_entries = n });
      } in
      let to : (next_loc M it).0 ≡ it' = ap (λ p. p.0) moved in
      let goes_on : (next_loc M it).1 ≡ true = ap (λ p. p.1) moved in
      rw (goes_on, to, all_written n, s.on)
        (write_rest fuel it' w' (add64 n 1) locs s.filled s.ahead (omega arith) ∙ (λ i. ok (
          record w {
            file =
                append_assoc w.file (record_of loc (record { total_entries = n }))
                  (log_of (numbered (add64 n 1) locs)) i;
          },
          none,
        )))

  -- WriteIndex appends a record for each location, in the order of the index.
  pub write_index-log_of :
      (i : Index M) (file : List ℕ)
      → IsValid M i
      → write_index M i file (length (locations M i) + 1) os
        ≡ ok (record { file = file ++ log_of (numbered 0 (locations M i)); sync_mode = true }, none)
  unfolding write_index
  write_index-log_of i file v =
      write_rest (length (locations M i) + 1) (loc_iter M i)
        (record { file = file; sync_mode = true }) 0 (locations M i) (loc_iter-NonEmpty M i v)
        (loc_iter-upcoming M i) (omega arith)

-- The last trailer of numbered records is the number of the last one.
numbered-trailer :
    (file : List ℕ) (n : ℕ) (loc : Location) (locs : List Location)
    → n + length locs < 2 ^ 32
    → read_trailer (file ++ log_of (numbered n (loc ∷ locs)))
      ≡ ok (record { total_entries = n + length locs })
numbered-trailer file n loc [] h =
    ap (λ b. read_trailer (file ++ b)) (append-nil (record_of loc (record { total_entries = n })))
    ∙ read_trailer-append file loc (record { total_entries = n })
    ∙ (λ i. ok (record { total_entries = number i }))
  where
    number : u32 n ≡ n + 0
    number = omega (arith, h)
numbered-trailer file n loc (next ∷ locs) h =
    ap read_trailer (
      sym (
        append_assoc file (record_of loc (record { total_entries = n }))
          (log_of (numbered (add64 n 1) (next ∷ locs)))))
    ∙ numbered-trailer (file ++ record_of loc (record { total_entries = n })) (add64 n 1) next locs
        (omega (arith, h))
    ∙ (λ i. ok (record { total_entries = number i }))
  where
    number : add64 n 1 + length locs ≡ n + suc (length locs)
    number = omega (arith, h)

module _ (M : OrderedMap (List Location)) (laws : IsOrderedMap M) (os : ℕ → WriteAnswer)
    (all_written : (n : ℕ) → os n ≡ written) (i : Index M) (v : IsValid M i) where
  numbered-All :
      (P : Location → Type 0) (n : ℕ) (locs : List Location)
      → All P locs
      → All (λ r. P r.0) (numbered n locs)
  numbered-All P n [] h = tt
  numbered-All P n (loc ∷ locs) h = (h.0, numbered-All P (add64 n 1) locs h.1)

  -- A valid index whose locations are not empty and fit a record, written to an empty file by
  -- WriteIndex with all writes succeeding and loaded again, gives a valid index with the same
  -- locations, without an error.
  pub load-write_index :
      All IsStorable (locations M i)
      → All (λ loc. 0 < loc.len) (locations M i)
      → (w : Writer) × (i' : Index M) × (write_index M i [] (length (locations M i) + 1) os
          ≡ ok (w, none))
        × (load M w.file ≡ ok (i', none))
        × IsValid M i'
        × Perm (locations M i') (locations M i)
  load-write_index st pos =
      let rs = numbered 0 (locations M i) in
      let (i', run, v', same) =
        replay-perm M laws rs _ (empty-IsValid M laws)
          (numbered-All (λ loc. 0 < loc.len) 0 (locations M i) pos) in
      let loaded =
        load-replay M rs [] (numbered-All IsStorable 0 (locations M i) st) (omega arith) in
      (
        record { file = log_of rs; sync_mode = true },
        i',
        write_index-log_of M os all_written i [] v,
        ap (load M) (sym (append-nil (log_of rs))) ∙ loaded ∙ rw run,
        v',
        subst (Perm (locations M i')) listed same,
      )
    where
      none_yet : locations M (empty M) ≡ []
      none_yet = ap all_locs laws.entries-empty

      listed : map (λ r. r.0) (numbered 0 (locations M i)) ++ locations M (empty M) ≡ locations M i
      listed = rw (map-numbered 0 (locations M i), none_yet) (append-nil (locations M i))

  -- The trailer of a file that WriteIndex wrote for a valid index with at least one and at most
  -- 2^32 locations, all writes succeeding, is the number of the locations less one, whatever the
  -- number of their items is.
  pub write_index-trailer :
      (loc : Location) (locs : List Location)
      → locations M i ≡ loc ∷ locs
      → length locs < 2 ^ 32
      → (w : Writer) × (write_index M i [] (length (locations M i) + 1) os ≡ ok (w, none))
        × (read_trailer w.file ≡ ok (record { total_entries = length locs }))
  write_index-trailer loc locs e h = (
    record { file = log_of (numbered 0 (locations M i)); sync_mode = true },
    write_index-log_of M os all_written i [] v,
    ap (λ ls. read_trailer (log_of (numbered 0 ls))) e
        ∙ numbered-trailer [] 0 loc locs (omega (arith, h))
        ∙ (λ i. ok (record { total_entries = number i })),
  )
    where
      number : 0 + length locs ≡ length locs
      number = omega arith
