-- ===== src/Vlog/Entry.antt =====
-- writeItem and readItemAt of vlog/vlog.go on one entry.
use mathlib.Core.List.{append_assoc}
use timeq.Base.{
  ℕ, ◌+◌, ◌*◌, ◌^◌, ◌≤◌, ◌<◌, ◌≡◌, List, [], ◌∷◌, ◌++◌, none, some, length, get_elem?,
  take_of_length-le, get_elem?-append, lt→ltb, ge→ltb, length-append, arith, ok, ◌>>=◌,
}
use timeq.Base.Words.{rank, u32, add64}
use timeq.Base.Bytes.{
  zeros, zeros-add, length-zeros, slice, slice_from, write_at, copy_at, big_endian, read_be,
  write_at_lem, slice_lem, slice_from-append, read_be-big_endian, length-big_endian,
}
use timeq.Item.{Item, trailer_size}
use timeq.Item.Sizes.{entry_size}
use timeq.Vlog.{Log, write_item, read_item_at}

-- The bytes of an entry: length, key, payload and the end mark.
abbrev pub encode : Item → List ℕ
encode it =
    big_endian 4 (u32 (length it.blob)) ++ (big_endian 8 it.key ++ (it.blob ++ (0xff ∷ 0xff ∷ [])))

abbrev pub encode_all : List Item → List ℕ
encode_all [] = []
encode_all (it ∷ items) = encode it ++ encode_all items

-- What the log can hold and read back: a key of 64 bits and at most 64 MB of payload.
pub record IsStorable (it : Item) : Type 0 where
  pub key_bound : it.key < 2 ^ 64
  pub blob_bound : length it.blob ≤ 64 * 1024 * 1024

-- `used` bytes are in use, and zeros follow.
pub record Holds (l : Log) (used : List ℕ) (spare : ℕ) : Type 0 where
  pub shape : l.mmap ≡ used ++ zeros spare
  pub sized : l.size ≡ length used

pub length-encode : (it : Item) → length (encode it) ≡ entry_size it
length-encode it = omega (
  arith,
  length-append (big_endian 4 (u32 (length it.blob)))
      (big_endian 8 it.key ++ (it.blob ++ (0xff ∷ 0xff ∷ []))),
  length-append (big_endian 8 it.key) (it.blob ++ (0xff ∷ 0xff ∷ [])),
  length-append it.blob (0xff ∷ 0xff ∷ []),
  length-big_endian 4 (u32 (length it.blob)),
  length-big_endian 8 it.key,
)

-- Bytes written where the zeros begin.
write_zeros :
    (a b : List ℕ) (off n k : ℕ)
    → off ≡ length a
    → n ≡ length b + k
    → write_at (a ++ zeros n) off b ≡ ok ((a ++ b) ++ zeros k)
write_zeros a b off n k eo en =
    rw (en, zeros-add (length b) k, append_assoc a b)
      (write_at_lem a (zeros (length b)) b (zeros k) off eo (length-zeros (length b)))

copy_zeros :
    (a b : List ℕ) (off n k : ℕ)
    → off ≡ length a
    → n ≡ length b + k
    → copy_at (a ++ zeros n) off b ≡ ok ((a ++ b) ++ zeros k, length b)
unfolding copy_at
copy_zeros a b off n k eo en = rw (
  slice_from-append a (zeros n) off eo,
  ◌>>=◌,
  take_of_length-le b (length (zeros n)) (omega (arith, length-zeros n)),
  write_zeros a b off n k eo en,
)

-- writeItem in a log with room and zeros behind the bytes in use appends the encoding of the item
-- to these bytes.
pub write_item-encode :
    (l : Log) (it : Item) (used : List ℕ) (n k : ℕ)
    → Holds l used n
    → n ≡ entry_size it + k
    → write_item l it
      ≡ ok (record l { mmap = (used ++ encode it) ++ zeros k; size = l.size + entry_size it })
unfolding write_item
write_item-encode l it used n k h e = rw (h.shape) (
    rw (first, ◌>>=◌, second, ◌>>=◌, third, ◌>>=◌, fourth, ◌>>=◌, fifth, ◌>>=◌)
      (rw (joined, total)))
  where
    siz : List ℕ
    siz = big_endian 4 (u32 (length it.blob))

    key : List ℕ
    key = big_endian 8 it.key

    head : List ℕ
    head = (used ++ siz) ++ key

    siz_length : length siz ≡ 4
    siz_length = length-big_endian 4 (u32 (length it.blob))

    first :
        write_at (used ++ zeros n) l.size siz
        ≡ ok ((used ++ siz) ++ zeros (length it.blob + 10 + k))
    first = write_zeros used siz l.size n _ h.sized (omega (arith, siz_length))

    sizes : length head ≡ l.size + 12
    sizes = omega (
      arith,
      h.sized,
      length-append used siz,
      length-append (used ++ siz) key,
      siz_length,
      length-big_endian 8 it.key,
    )

    second :
        write_at ((used ++ siz) ++ zeros (length it.blob + 10 + k)) (l.size + 4) key
        ≡ ok (head ++ zeros (length it.blob + 2 + k))
    second =
        write_zeros (used ++ siz) key (l.size + 4) _ _
          (omega (arith, h.sized, length-append used siz, siz_length))
          (omega (arith, length-big_endian 8 it.key))

    third :
        copy_at (head ++ zeros (length it.blob + 2 + k)) (l.size + 4 + 8) it.blob
        ≡ ok ((head ++ it.blob) ++ zeros (2 + k), length it.blob)
    third = copy_zeros head it.blob (l.size + 4 + 8) _ _ (omega (arith, sizes)) (omega arith)

    fourth :
        write_at ((head ++ it.blob) ++ zeros (2 + k)) (l.size + 4 + 8 + length it.blob) (0xff ∷ [])
        ≡ ok (((head ++ it.blob) ++ (0xff ∷ [])) ++ zeros (1 + k))
    fourth =
        write_zeros (head ++ it.blob) (0xff ∷ []) (l.size + 4 + 8 + length it.blob) _ _
          (omega (arith, sizes, length-append head it.blob)) (omega arith)

    fifth :
        write_at
          (((head ++ it.blob) ++ (0xff ∷ [])) ++ zeros (1 + k))
          (l.size + 4 + 8 + length it.blob + 1)
          (0xff ∷ [])
        ≡ ok ((((head ++ it.blob) ++ (0xff ∷ [])) ++ (0xff ∷ [])) ++ zeros k)
    fifth =
        write_zeros ((head ++ it.blob) ++ (0xff ∷ [])) (0xff ∷ [])
          (l.size + 4 + 8 + length it.blob + 1) _ _
          (omega
            (arith, sizes, length-append head it.blob, length-append (head ++ it.blob) (0xff ∷ [])))
          (omega arith)

    joined : (((head ++ it.blob) ++ (0xff ∷ [])) ++ (0xff ∷ [])) ≡ used ++ encode it
    joined = simp append_assoc

    total : l.size + 4 + 8 + length it.blob + trailer_size ≡ l.size + entry_size it
    total = omega arith

pub get_elem?-at : (a b : List ℕ) (i : ℕ) → i ≡ length a → get_elem? (a ++ b) i ≡ get_elem? b 0
get_elem?-at a b i e =
    let start : i ≡ length a + 0 = omega (arith, e) in rw start (get_elem?-append a b 0)

-- readItemAt at the first byte of an encoded item gives the item without an error, whatever
-- surrounds it, if the item fits an entry and ends within the size of the log.
pub read_item_at-encode :
    (l : Log) (it old : Item) (a post : List ℕ) (off : ℕ)
    → l.mmap ≡ a ++ (encode it ++ post)
    → off ≡ length a
    → IsStorable it
    → off + entry_size it ≤ l.size
    → l.size < 2 ^ 63
    → read_item_at l off old ≡ ok (it, none)
unfolding read_item_at
read_item_at-encode l it old a post off shape eo st fits small = rw (shape) (
    rw (
      lt→ltb (rank (add64 off 12)) (rank l.size) (omega (arith, fits)),
      header,
      ◌>>=◌,
      siz_read,
      ◌>>=◌,
      key_bytes,
      ◌>>=◌,
      key_read,
      ◌>>=◌,
      ge→ltb (64 * 1024 * 1024) (u32 (length it.blob)) (omega (arith, st.blob_bound)),
      ge→ltb (rank l.size) (rank (add64 (add64 (add64 off 12) (u32 (length it.blob))) 2))
          (omega (arith, fits, st.blob_bound)),
      mark,
      ◌>>=◌,
      payload,
    ))
  where
    siz : List ℕ
    siz = big_endian 4 (u32 (length it.blob))

    key : List ℕ
    key = big_endian 8 it.key

    mark_bytes : List ℕ
    mark_bytes = 0xff ∷ 0xff ∷ post

    after_key : List ℕ
    after_key = it.blob ++ mark_bytes

    siz_length : length siz ≡ 4
    siz_length = length-big_endian 4 (u32 (length it.blob))

    m : List ℕ
    m = a ++ (encode it ++ post)

    header : slice_from m off ≡ ok (encode it ++ post)
    header = slice_from-append a (encode it ++ post) off eo

    siz_read : read_be 4 (encode it ++ post) ≡ ok (u32 (length it.blob))
    siz_read = rw append_assoc (read_be-big_endian 4 (u32 (length it.blob)) _ (omega arith))

    key_bytes : slice_from m (add64 off 4) ≡ ok (key ++ after_key)
    key_bytes =
        let split : m ≡ (a ++ siz) ++ (key ++ after_key) = simp append_assoc in
        rw split (
          slice_from-append (a ++ siz) (key ++ after_key) (add64 off 4)
            (omega (arith, eo, fits, length-append a siz, siz_length)))

    key_read : read_be 8 (key ++ after_key) ≡ ok it.key
    key_read = read_be-big_endian 8 it.key after_key (omega (arith, st.key_bound))

    before : List ℕ
    before = (a ++ siz) ++ key

    before_length : length before ≡ off + 12
    before_length = omega (
      arith,
      eo,
      length-append a siz,
      length-append (a ++ siz) key,
      siz_length,
      length-big_endian 8 it.key,
    )

    blob_off : ℕ
    blob_off = add64 off 12

    trailer_off : ℕ
    trailer_off = add64 blob_off (u32 (length it.blob))

    mark : get_elem? m trailer_off ≡ some 0xff
    mark =
        let split : m ≡ (before ++ it.blob) ++ mark_bytes = simp append_assoc in
        rw split (
          get_elem?-at (before ++ it.blob) mark_bytes trailer_off
            (omega (arith, fits, before_length, st.blob_bound, length-append before it.blob)))

    payload : slice m blob_off trailer_off ≡ ok it.blob
    payload =
        let split : m ≡ before ++ (it.blob ++ mark_bytes) = simp append_assoc in
        rw split (
          slice_lem before it.blob mark_bytes blob_off trailer_off
            (omega (arith, before_length, fits))
            (omega (arith, before_length, fits, st.blob_bound)))
