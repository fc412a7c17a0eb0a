-- ===== src/Item.antt =====
-- item/item.go: items, their sizes on disk, locations of batches, and copies.
-- A Key is the 64-bit pattern of an int64, an Off a uint64; a blob is a list of bytes.
pub mod Sizes
pub mod Copies
pub mod Order
pub mod Keys
use timeq.Base.{ℕ, zero, suc, ◌+◌, ◌*◌, ◌%◌, ◌^◌, List, [], ◌∷◌, length, replicate, Run, ok, ◌>>=◌}
use timeq.Base.Words.{u64}
use timeq.Base.Bytes.{zeros, zeros-add, length-zeros, slice, slice_from, copy_at}

abbrev pub header_size : ℕ
header_size = 12

abbrev pub trailer_size : ℕ
trailer_size = 2

pub record Item : Type 0 where
  pub key : ℕ
  pub blob : List ℕ

-- The location of a batch in dat.log: `len` items from the byte `off` on.
pub record Location : Type 0 where
  pub key : ℕ
  pub off : ℕ
  pub len : ℕ

unfoldable pub storage_size : Item → ℕ
storage_size it = u64 (u64 (header_size + u64 (length it.blob)) + trailer_size)

-- Items.StorageSize: the loop adds the blobs to the sum.
unfoldable pub add_blobs : ℕ → List Item → ℕ
add_blobs sum [] = sum
add_blobs sum (it ∷ items) = add_blobs (u64 (sum + u64 (length it.blob))) items

unfoldable pub items_storage_size : List Item → ℕ
unfolding add_blobs
items_storage_size items = add_blobs (u64 (u64 (length items) * (header_size + trailer_size))) items

pub copy : Item → Run Item
copy it = copy_at (zeros (length it.blob)) 0 it.blob >>= λ (blob, _).
    ok (record { key = it.key; blob = blob })

-- Items.Copy: one buffer for all blobs, of which each item takes its part.
unfoldable pub buffer_size : ℕ → List Item → ℕ
buffer_size size [] = size
buffer_size size (it ∷ items) = buffer_size (size + length it.blob) items

unfoldable pub copy_items : List Item → List ℕ → Run (List Item)
copy_items [] buf = ok []
copy_items (it ∷ items) buf = do
  room ← slice buf 0 (length it.blob)
  (blob, _) ← copy_at room 0 it.blob
  rest ← slice_from buf (length room)
  copies ← copy_items items rest
  ok (record { key = it.key; blob = blob } ∷ copies)

unfoldable pub items_copy : List Item → Run (List Item)
unfolding buffer_size copy_items
items_copy items = copy_items items (zeros (buffer_size 0 items))
