-- ===== src/Item/Sizes.antt =====
-- The sizes of item/item.go against plain sums.
use timeq.Base.{ℕ, ◌+◌, ◌*◌, ◌^◌, ◌<◌, ◌≡◌, List, [], ◌∷◌, length, arith}
use timeq.Base.Words.{u64}
use timeq.Item.{Item, storage_size, items_storage_size, add_blobs}

-- The bytes that an item takes in the log: 4 for the length, 8 for the key, 2 for the trailer.
abbrev pub entry_size : Item → ℕ
entry_size it = length it.blob + 14

abbrev pub batch_size : List Item → ℕ
batch_size [] = 0
batch_size (it ∷ items) = entry_size it + batch_size items

pub storage_size_lem : (it : Item) → entry_size it < 2 ^ 64 → storage_size it ≡ entry_size it
unfolding storage_size
storage_size_lem it h = omega arith

abbrev blobs_size : List Item → ℕ
blobs_size [] = 0
blobs_size (it ∷ items) = length it.blob + blobs_size items

add_blobs_lem :
    (sum : ℕ) (items : List Item) → u64 (add_blobs sum items) ≡ u64 (sum + blobs_size items)
unfolding add_blobs
add_blobs_lem sum [] = omega arith
add_blobs_lem sum (it ∷ items) =
    omega (arith, add_blobs_lem (u64 (sum + u64 (length it.blob))) items)

batch_size_lem : (items : List Item) → batch_size items ≡ 14 * length items + blobs_size items
batch_size_lem [] = omega arith
batch_size_lem (it ∷ items) = omega (arith, batch_size_lem items)

add_blobs_bound : (sum : ℕ) (items : List Item) → sum < 2 ^ 64 → add_blobs sum items < 2 ^ 64
unfolding add_blobs
add_blobs_bound sum [] h = h
add_blobs_bound sum (it ∷ items) h =
    add_blobs_bound (u64 (sum + u64 (length it.blob))) items (omega arith)

-- Items.StorageSize is the sum of the sizes of the entries, with the wrap-around of a uint64.
pub items_storage_size_lem : (items : List Item) → items_storage_size items ≡ u64 (batch_size items)
unfolding items_storage_size
items_storage_size_lem items = omega (
  arith,
  add_blobs_lem (u64 (u64 (length items) * 14)) items,
  add_blobs_bound (u64 (u64 (length items) * 14)) items (omega arith),
  batch_size_lem items,
)
