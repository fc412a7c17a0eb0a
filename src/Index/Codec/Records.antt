-- ===== src/Index/Codec/Records.antt =====
-- One record of the index log: what Push writes, Next reads.
use mathlib.Core.List.{append_assoc, append-nil}
use timeq.Base.{
  ℕ, ◌+◌, ◌-◌, ◌^◌, ◌<◌, ◌≡◌, sym, ◌∙◌, ap, List, [], ◌++◌, Option, some, length, length-append,
  take, drop, take-append, drop-append, arith, false, ok, ◌>>=◌, ltb, ge→ltb, ◌==◌,
}
use timeq.Base.Words.{u32}
use timeq.Base.Bytes.{
  big_endian, read_be, slice_from, read_be-big_endian, slice_from-append, length-big_endian,
}
use timeq.Item.{Location}
use timeq.Index.{Trailer}
use timeq.Index.Codec.{location_size, record_of, parse, next, read_trailer, FileError}

-- A location that a record can hold.
pub record IsStorable (loc : Location) : Type 0 where
  pub key_bound : loc.key < 2 ^ 64
  pub off_bound : loc.off < 2 ^ 64
  pub len_bound : loc.len < 2 ^ 32

pub length-record_of : (loc : Location) (t : Trailer) → length (record_of loc t) ≡ location_size
length-record_of loc t = omega (
  arith,
  length-append (big_endian 8 loc.key)
      (big_endian 8 loc.off ++ (big_endian 4 (u32 loc.len) ++ big_endian 4 (u32 t.total_entries))),
  length-append (big_endian 8 loc.off)
      (big_endian 4 (u32 loc.len) ++ big_endian 4 (u32 t.total_entries)),
  length-append (big_endian 4 (u32 loc.len)) (big_endian 4 (u32 t.total_entries)),
  length-big_endian 8 loc.key,
  length-big_endian 8 loc.off,
  length-big_endian 4 (u32 loc.len),
  length-big_endian 4 (u32 t.total_entries),
)

-- Parsing a record gives the location that was written.
pub parse-record_of :
    (loc : Location) (t : Trailer) → IsStorable loc → parse (record_of loc t) ≡ ok loc
unfolding parse
parse-record_of loc t s = rw (
  read_be-big_endian 8 loc.key (off ++ (len ++ total)) (omega (arith, s.key_bound)),
  ◌>>=◌,
  off_bytes,
  ◌>>=◌,
  read_be-big_endian 8 loc.off (len ++ total) (omega (arith, s.off_bound)),
  ◌>>=◌,
  len_bytes,
  ◌>>=◌,
  read_be-big_endian 4 (u32 loc.len) total (omega arith),
  ◌>>=◌,
  same_len,
)
  where
    key : List ℕ
    key = big_endian 8 loc.key

    off : List ℕ
    off = big_endian 8 loc.off

    len : List ℕ
    len = big_endian 4 (u32 loc.len)

    total : List ℕ
    total = big_endian 4 (u32 t.total_entries)

    off_bytes : slice_from (record_of loc t) 8 ≡ ok (off ++ (len ++ total))
    off_bytes = slice_from-append key (off ++ (len ++ total)) 8 (sym (length-big_endian 8 loc.key))

    len_bytes : slice_from (record_of loc t) 16 ≡ ok (len ++ total)
    len_bytes = rw (sym (append_assoc key off (len ++ total))) (
        slice_from-append (key ++ off) (len ++ total) 16 (
          omega (
            arith,
            length-append key off,
            length-big_endian 8 loc.key,
            length-big_endian 8 loc.off,
          )))

    same_len : u32 loc.len ≡ loc.len
    same_len = omega (arith, s.len_bound)

-- Next on a file that starts with the record of a location that fits gives this location and
-- leaves the rest of the file.
pub next-record_of :
    (loc : Location) (t : Trailer) (rest : List ℕ) (e : Option FileError)
    → IsStorable loc
    → next (record { rest = record_of loc t ++ rest; err = e })
      ≡ ok (record { rest = rest; err = e }, some loc)
unfolding next
next-record_of loc t rest e s = rw (nonempty, enough, cut, parse-record_of loc t s, ◌>>=◌, left)
  where
    size : length (record_of loc t ++ rest) ≡ location_size + length rest
    size = length-append (record_of loc t) rest ∙ ap (λ n. n + length rest) (length-record_of loc t)

    nonempty : (length (record_of loc t ++ rest) == 0) ≡ false
    nonempty = ground (arith, size)

    enough : ltb (length (record_of loc t ++ rest)) location_size ≡ false
    enough = ge→ltb _ _ (omega (arith, size))

    cut : take location_size (record_of loc t ++ rest) ≡ record_of loc t
    cut =
        ap (λ n. take n (record_of loc t ++ rest)) (sym (length-record_of loc t))
        ∙ take-append (record_of loc t) rest

    left : drop location_size (record_of loc t ++ rest) ≡ rest
    left =
        ap (λ n. drop n (record_of loc t ++ rest)) (sym (length-record_of loc t))
        ∙ drop-append (record_of loc t) rest

-- The trailer of a file that ends in a record is that of this record, as a 32-bit number.
pub read_trailer-append :
    (file : List ℕ) (loc : Location) (t : Trailer)
    → read_trailer (file ++ record_of loc t) ≡ ok (record { total_entries = u32 t.total_entries })
unfolding read_trailer
read_trailer-append file loc t =
    rw (ge→ltb (length whole) location_size (omega (arith, size)), last_bytes, ◌>>=◌, number)
  where
    whole : List ℕ
    whole = file ++ record_of loc t

    front : List ℕ
    front = file ++ (big_endian 8 loc.key ++ (big_endian 8 loc.off ++ big_endian 4 (u32 loc.len)))

    total : List ℕ
    total = big_endian 4 (u32 t.total_entries)

    split : whole ≡ front ++ total
    split = simp append_assoc

    size : length whole ≡ length file + location_size
    size = length-append file (record_of loc t) ∙ ap (λ n. length file + n) (length-record_of loc t)

    ends : length whole ≡ length front + 4
    ends =
        ap (λ m. length m) split
        ∙ length-append front total
        ∙ ap (λ n. length front + n) (length-big_endian 4 (u32 t.total_entries))

    last_bytes : slice_from whole (length whole - 4) ≡ ok total
    last_bytes =
        rw split (slice_from-append front total _ (omega (arith, ends, ap (λ m. length m) split)))

    number : read_be 4 total ≡ ok (u32 t.total_entries)
    number =
        ap (λ m. read_be 4 m) (sym (append-nil total))
        ∙ read_be-big_endian 4 (u32 t.total_entries) [] (omega arith)
