-- ===== src/Item/Copies.antt =====
-- Item.Copy and Items.Copy give back what they were given, whatever the buffers held.
use mathlib.Core.List.{append-nil}
use timeq.Base.{
  ℕ, ◌+◌, ◌≡◌, refl, ◌∙◌, ap, List, [], ◌∷◌, ◌++◌, length, take_of_length-le, arith, ok, ◌>>=◌,
  le→leb,
}
use timeq.Base.Bytes.{
  zeros, zeros-add, length-zeros, slice, slice_from, copy_at, overlay_lem, slice_from-append,
  overlay, slice_lem,
}
use timeq.Item.{Item, copy, items_copy, buffer_size, copy_items}

-- A blob fills a buffer of its length.
copy_at_full : (old b : List ℕ) → length old ≡ length b → copy_at old 0 b ≡ ok (b, length b)
unfolding copy_at
copy_at_full old b h =
    rw (le→leb 0 (length old) (omega arith), take_of_length-le b (length old) (omega arith), full)
  where
    full : overlay old b ≡ ok b
    full = rw (append-nil old, append-nil b) at (overlay_lem old b [] h)

-- Item.Copy returns an item equal to the original.
pub copy_lem : (it : Item) → copy it ≡ ok it
unfolding copy
copy_lem it = rw (copy_at_full (zeros (length it.blob)) it.blob (length-zeros _))

buffer_size_add :
    (a b : ℕ) (items : List Item) → buffer_size (a + b) items ≡ a + buffer_size b items
unfolding buffer_size
buffer_size_add a b [] = refl
buffer_size_add a b (it ∷ items) =
    let regroup : a + b + length it.blob ≡ a + (b + length it.blob) = omega arith in
    rw regroup (buffer_size_add a (b + length it.blob) items)

copy_items_lem :
    (items : List Item) (n : ℕ) → n ≡ buffer_size 0 items → copy_items items (zeros n) ≡ ok items
unfolding copy_items
copy_items_lem [] n h = refl
copy_items_lem (it ∷ items) n h =
    let size : n ≡ length it.blob + buffer_size 0 items =
      h ∙ unfold buffer_size in (plus_zero ∙ buffer_size_add (length it.blob) 0 items) in
    rw (size, zeros-add (length it.blob) (buffer_size 0 items))
      (rw (first, copy_at_full room it.blob room_size, ◌>>=◌, second, copy_items_lem items _ refl))
  where
    room : List ℕ
    room = zeros (length it.blob)

    room_size : length room ≡ length it.blob
    room_size = length-zeros (length it.blob)

    plus_zero : buffer_size (0 + length it.blob) items ≡ buffer_size (length it.blob + 0) items
    plus_zero =
        let e : 0 + length it.blob ≡ length it.blob + 0 = omega arith in
        ap (λ m. buffer_size m items) e

    more : List ℕ
    more = zeros (buffer_size 0 items)

    first : slice (room ++ more) 0 (length it.blob) ≡ ok room
    first = slice_lem [] room more 0 (length it.blob) refl (omega (arith, room_size))

    second : slice_from (room ++ more) (length room) ≡ ok more
    second = slice_from-append room more (length room) refl

-- Items.Copy returns items equal to the originals and does not panic: the buffer has room for
-- every blob.
pub items_copy_lem : (items : List Item) → items_copy items ≡ ok items
unfolding items_copy
items_copy_lem items = copy_items_lem items (buffer_size 0 items) refl
