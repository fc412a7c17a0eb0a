-- ===== src/Vlog.antt =====
-- vlog/vlog.go: the value log, a memory-mapped file of entries. The map and the file are one
-- (MAP_SHARED), so the file's length is that of `mmap`; the path and the descriptor are left out.
-- What a system call answers is an argument of the function that makes the call.
pub mod Growth
pub mod Entry
pub mod Push
pub mod Batch
pub mod Reopen
pub mod RoundTrip
pub mod Search
pub mod Iter
pub mod Heap
use timeq.Base.{
  ℕ, zero, suc, ◌+◌, ◌-◌, ◌*◌, ◌/◌, ◌%◌, ◌^◌, Bool, true, false, ◌&&◌, not, List, [], ◌∷◌, Option,
  none, some, length, get_elem?, Run, ok, panic, ◌>>=◌, or_panic, ltb, leb, ◌==◌, if◌then◌else◌,
  replicate,
}
use timeq.Base.Words.{u64, u32, add64, sub64, lt_i64}
use timeq.Base.Bytes.{
  zeros, zeros-add, length-zeros, slice, slice_from, write_at, copy_at, big_endian, read_be,
}
use timeq.Item.{Item, Location, header_size, trailer_size, storage_size, items_storage_size}

pub record Log : Type 0 where
  pub mmap : List ℕ
  pub size : ℕ
  pub sync_on_write : Bool
  pub is_empty : Bool

pub data LogError : Type 0 where
  open_failed stat_failed truncate_failed mmap_failed remap_failed sync_failed : LogError
  too_big bad_offset missing_trailer : LogError

abbrev mb : ℕ
mb = 1024 * 1024

-- How many pages are added at once, as a power of two.
unfoldable pub page_shift : ℕ → ℕ
page_shift size =
    if leb (100 * mb) size
    then 7
    else if leb (10 * mb) size
    then 6
    else if leb (1 * mb) size
    then 5
    else if leb (200 * 1024) size
    then 4
    else 3

-- nextSize: `size` is an int64 pattern, and `page_size` is what the system answers.
unfoldable pub next_size : ℕ → ℕ → ℕ
unfolding page_shift
next_size page_size size =
    if lt_i64 size 0
    then 0
    else (let shift = page_shift size in
        u64 ((size / page_size / 2 ^ shift + 1) * 2 ^ shift * page_size))

-- The scan of `shrink` down from the index `n - 1`.
shrink_loop : List ℕ → ℕ → Run ℕ
shrink_loop mmap zero = ok 0
shrink_loop mmap (suc idx) =
    let rest = shrink_loop mmap idx in
    or_panic (get_elem? mmap idx) >>= λ b. if b == 0 then rest else ok (idx + 1)

unfoldable pub shrink : Log → Run ℕ
unfolding shrink_loop
shrink l = shrink_loop l.mmap l.size

-- The answers of the system calls of Open.
pub record OpenAnswers : Type 0 where
  pub opened : Bool
  pub statted : Bool
  pub truncated : Bool
  pub mapped : Bool

pub data OpenResult : Type 0 where
  opened_log : Log → OpenResult
  refused_open : LogError → OpenResult

-- Open on a file with the bytes `file`.
unfoldable pub open_log : ℕ → List ℕ → Bool → OpenAnswers → Run OpenResult
unfolding next_size shrink
open_log page_size file sync_on_write os =
    let fresh = length file == 0 in
    let mmap = if fresh then zeros (next_size page_size 0) else file in
    let l : Log = record {
      mmap = mmap;
      size = length file;
      sync_on_write = sync_on_write;
      is_empty = fresh;
    } in
    if not os.opened
    then ok (refused_open open_failed)
    else if not os.statted
    then ok (refused_open stat_failed)
    else if fresh && not os.truncated
    then ok (refused_open truncate_failed)
    else if not os.mapped
    then ok (refused_open mmap_failed)
    else (shrink l >>= λ size. ok (opened_log (record l { size = size })))

unfoldable pub write_item : Log → Item → Run Log
write_item l it = do
  let off = l.size
  m1 ← write_at l.mmap off (big_endian 4 (u32 (length it.blob)))
  let off = off + 4
  m2 ← write_at m1 off (big_endian 8 it.key)
  let off = off + 8
  (m3, n) ← copy_at m2 off it.blob
  let off = off + n
  m4 ← write_at m3 off (0xff ∷ [])
  m5 ← write_at m4 (off + 1) (0xff ∷ [])
  ok (record l { mmap = m5; size = off + trailer_size })

unfoldable pub write_items : Log → List Item → Run Log
write_items l [] = ok l
write_items l (it ∷ items) = write_item l it >>= λ l'. write_items l' items

-- The answers of the system calls of Push and Sync; a failed mremap leaves no map.
pub record PushAnswers : Type 0 where
  pub truncated : Bool
  pub mremap : List ℕ → ℕ → Option (List ℕ)
  pub synced : Bool

unfoldable pub sync : Log → Bool → PushAnswers → Option LogError
sync l force os =
    if not l.sync_on_write && not force then none else if os.synced then none else some sync_failed

-- The map made large enough for `add_size` more bytes.
unfoldable pub make_room : ℕ → Log → ℕ → PushAnswers → Log × Option LogError
make_room page_size l add_size os =
    let next = next_size page_size (add64 l.size add_size) in
    if lt_i64 (length l.mmap) next
    then (if not os.truncated then (l, some truncate_failed) else elim (os.mremap l.mmap next) [
      | some m ↦ (record l { mmap = m }, none)
      | none ↦ (record l { mmap = [] }, some remap_failed)
    ])
    else (l, none)

-- What follows the loop of Push.
unfoldable pub finish_push : Log → List Item → PushAnswers → Log × Option LogError
unfolding sync
finish_push l items os = elim (sync l false os) [
  | some e ↦ (l, some e)
  | none ↦ (
    record l { is_empty = if l.is_empty && ltb 0 (length items) then false else l.is_empty },
    none,
  )
]

-- Push after the space was allocated, or was not.
unfoldable pub copy_batch :
    Log × Option LogError
    → Location
    → List Item
    → PushAnswers
    → Run (Log × Location × Option LogError)
unfolding write_items finish_push
copy_batch (l, some e) loc items os = ok (l, loc, some e)
copy_batch (l, none) loc items os =
    write_items l items >>= λ l'. (let (l'', e) = finish_push l' items os in ok (l'', loc, e))

-- Push: the log after the call, the location, and the error. No items make `items[0]` panic.
unfoldable pub push : ℕ → Log → List Item → PushAnswers → Run (Log × Location × Option LogError)
unfolding make_room copy_batch
push page_size l [] os = panic
push page_size l (it ∷ items) os =
    let loc : Location = record { key = it.key; off = l.size; len = length (it ∷ items) } in
    copy_batch (make_room page_size l (items_storage_size (it ∷ items)) os) loc (it ∷ items) os

-- The rounds of findNextItem that are left, from the index `idx` on.
find_loop : Log → ℕ → ℕ → Run ℕ
find_loop l zero idx = ok l.size
find_loop l (suc rounds) idx =
    let rest = find_loop l rounds (idx + 1) in
    or_panic (get_elem? l.mmap idx) >>= λ b.
    if b == 0xff
    then (or_panic (get_elem? l.mmap (idx + 1)) >>= λ c.
        if c == 0xff then ok (if leb l.size (idx + 2) then l.size else idx + 2) else rest)
    else rest

-- `offSize - 1` is that of a uint64, and the loop runs while the index is below it.
unfoldable pub find_next_item : Log → ℕ → Run ℕ
unfolding find_loop
find_next_item l off = let start = add64 off 1 in find_loop l (sub64 l.size 1 - start) start

-- The comparisons of readItemAt are those of int64: a pattern from 2 ^ 63 on is negative.
unfoldable pub read_item_at : Log → ℕ → Item → Run (Item × Option LogError)
read_item_at l off it = if not (lt_i64 (add64 off header_size) l.size) then ok (it, none) else do
  header ← slice_from l.mmap off
  siz ← read_be 4 header
  key_bytes ← slice_from l.mmap (add64 off 4)
  key ← read_be 8 key_bytes
  let blob_off = add64 off header_size
  let trailer_off = add64 blob_off siz
  if ltb (64 * 1024 * 1024) siz
      then ok (it, some too_big)
      else if lt_i64 l.size (add64 (add64 (add64 off header_size) siz) trailer_size)
      then ok (it, some bad_offset)
      else do
        t0 ← or_panic (get_elem? l.mmap trailer_off)
        bad ←
            if t0 == 0xff
            then ok false
            else (do t1 ← or_panic (get_elem? l.mmap (add64 trailer_off 1)); ok (not (t1 == 0xff)))
        if bad then ok (it, some missing_trailer) else do
          blob ← slice l.mmap blob_off trailer_off
          ok (record { key = key; blob = blob }, none)
