-- ===== src/Index/Codec.antt =====
-- index/writer.go and index/reader.go: the index log, a file of records of 24 bytes. A Writer is
-- the file that it appends to; what a write answers is an argument. Errors of opening, seeking and
-- reading a file are left out: a reader sees the bytes of the file and their end.
pub mod Records
pub mod Replay
pub mod Rewrite
use timeq.Base.{
  ℕ, zero, suc, ◌+◌, ◌-◌, ◌%◌, ◌^◌, Bool, true, false, not, ◌&&◌, List, [], ◌∷◌, ◌++◌, Option, none,
  some, length, take, drop, Run, ok, out_of_fuel, ◌>>=◌, ltb, ◌==◌, if◌then◌else◌,
}
use timeq.Base.Words.{u32, add64}
use timeq.Base.Bytes.{big_endian, read_be, slice_from}
use timeq.Item.{Location}
use timeq.Btree.{OrderedMap}
use timeq.Index.{Index, Trailer, empty, set, delete, LocIter, loc_iter, next_loc, value}

abbrev pub location_size : ℕ
location_size = 8 + 8 + 4 + 4

pub data FileError : Type 0 where
  write_failed sync_failed unexpected_eof : FileError

-- A write appends all bytes, or some of them and fails.
pub data WriteAnswer : Type 0 where
  written : WriteAnswer
  short_write : ℕ → WriteAnswer

pub record Writer : Type 0 where
  pub file : List ℕ
  pub sync_mode : Bool

-- The contents of locBuf; the writes cover all of it.
abbrev pub record_of : Location → Trailer → List ℕ
record_of loc t =
    big_endian 8 loc.key
    ++ (big_endian 8 loc.off ++ (big_endian 4 (u32 loc.len) ++ big_endian 4 (u32 t.total_entries)))

unfoldable pub push : Writer → Location → Trailer → WriteAnswer → Writer × Option FileError
push w loc t written = (record w { file = w.file ++ record_of loc t }, none)
push w loc t (short_write n) =
    (record w { file = w.file ++ take n (record_of loc t) }, some write_failed)

unfoldable pub sync : Writer → Bool → Bool → Option FileError
sync w force synced =
    if not w.sync_mode && not force then none else if synced then none else some sync_failed

pub record Reader : Type 0 where
  pub rest : List ℕ
  pub err : Option FileError

-- The fields of a full locBuf; the trailer is not looked at.
unfoldable pub parse : List ℕ → Run Location
parse buf = do
  key ← read_be 8 buf
  off_bytes ← slice_from buf 8
  off ← read_be 8 off_bytes
  len_bytes ← slice_from buf 16
  len ← read_be 4 len_bytes
  ok (record { key = key; off = off; len = len })

-- Reader.Next: the location, if there was one.
unfoldable pub next : Reader → Run (Reader × Option Location)
unfolding parse
next r =
    if length r.rest == 0
    then ok (r, none)
    else if ltb (length r.rest) location_size
    then ok (record { rest = []; err = some unexpected_eof }, none)
    else (parse (take location_size r.rest) >>= λ loc.
        ok (record r { rest = drop location_size r.rest }, some loc))

-- ReadTrailer of a file with these bytes.
unfoldable pub read_trailer : List ℕ → Run Trailer
read_trailer file =
    if ltb (length file) location_size
    then ok (record { total_entries = 0 })
    else (slice_from file (length file - 4) >>= λ buf.
        read_be 4 buf >>= λ n. ok (record { total_entries = n }))

module _ (M : OrderedMap (List Location)) where
  -- The body of Load's loop.
  unfoldable pub apply : Index M → Location → Run (Index M)
  unfolding set delete
  apply i loc =
      if loc.len == 0 then (delete M i loc.key >>= λ (i', dead). ok i') else ok (set M i loc)

  -- The rounds of Load; each takes a record of the file, so `length file + 1` are enough.
  unfoldable pub load_loop : ℕ → Reader → Index M → Run (Index M × Option FileError)
  unfolding next apply
  load_loop zero r i = out_of_fuel
  load_loop (suc fuel) r i = next r >>= λ (r', found). elim found [
    | none ↦ ok (i, r'.err)
    | some loc ↦ (apply i loc >>= λ i'. load_loop fuel r' i')
  ]

  unfoldable pub load : List ℕ → Run (Index M × Option FileError)
  unfolding load_loop
  load file = load_loop (length file + 1) (record { rest = file; err = none }) (empty M)

  -- A round of WriteIndex once the record was pushed; `again` makes the next rounds.
  unfoldable pub after_push :
      (LocIter M → Writer → ℕ → Run (Writer × Option FileError))
      → LocIter M
      → ℕ
      → Writer × Option FileError
      → Run (Writer × Option FileError)
  after_push again it total (w, some e) = ok (w, some e)
  after_push again it total (w, none) = again it w (add64 total 1)

  -- The rounds of WriteIndex, with the answers of the writes by their number.
  unfoldable pub write_loop :
      ℕ → LocIter M → Writer → ℕ → (ℕ → WriteAnswer) → Run (Writer × Option FileError)
  unfolding push next_loc value after_push
  write_loop zero it w total os = out_of_fuel
  write_loop (suc fuel) it w total os =
      let (it', more) = next_loc M it in
      let pushed = push w (value M it') (record { total_entries = total }) (os total) in
      let again = after_push (λ it w total. write_loop fuel it w total os) it' total pushed in
      if more then again else ok (w, none)

  -- WriteIndex appends to the bytes that the file holds. One round for each location, and the last.
  unfoldable pub write_index :
      Index M → List ℕ → ℕ → (ℕ → WriteAnswer) → Run (Writer × Option FileError)
  unfolding write_loop
  write_index i file fuel os =
      write_loop fuel (loc_iter M i) (record { file = file; sync_mode = true }) 0 os
