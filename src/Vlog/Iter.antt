-- ===== src/Vlog/Iter.antt =====
-- vlog/iter.go: iterators over the items of a batch. The log that an iterator points to is an
-- argument of `next`.
pub mod Walk
pub mod Ahead
use timeq.Base.{
  ℕ, zero, suc, ◌+◌, ◌-◌, Bool, true, false, ◌&&◌, ◌||◌, List, [], ◌∷◌, Option, none, some, length,
  Run, ok, out_of_fuel, ◌>>=◌, ltb, leb, ◌==◌, if◌then◌else◌,
}
use timeq.Base.Words.{add64, sub64}
use timeq.Item.{Item, Location, storage_size}
use timeq.Vlog.{Log, LogError, find_next_item, read_item_at}

pub record Iter : Type 0 where
  pub first_key : ℕ
  pub curr_off : ℕ
  pub prev_off : ℕ
  pub item : Item
  pub err : Option LogError
  pub curr_len : ℕ
  pub prev_len : ℕ
  pub exhausted : Bool
  pub continue_on_err : Bool

abbrev pub no_item : Item
no_item = record { key = 0; blob = [] }

-- At of vlog/vlog.go.
unfoldable pub at : Location → Bool → Iter
at loc continue_on_err = record {
  first_key = loc.key;
  curr_off = loc.off;
  prev_off = 0;
  item = no_item;
  err = none;
  curr_len = loc.len;
  prev_len = 0;
  exhausted = false;
  continue_on_err = continue_on_err;
}

-- The loop of Next: `true` if an item was read into `item`, at `curr_off`.
read_loop : ℕ → Log → Iter → Run (Iter × Bool)
read_loop zero l li = out_of_fuel
read_loop (suc fuel) l li = read_item_at l li.curr_off li.item >>= λ (it, e). elim e [
  | none ↦ ok (record li { item = it }, true)
  | some e ↦
      if li.continue_on_err
      then (find_next_item l li.curr_off >>= λ off.
          (let again = read_loop fuel l (record li { curr_off = off }) in
            if leb l.size off
            then ok (record li { curr_off = off; exhausted = true }, false)
            else again))
      else ok (record li { err = some e; exhausted = true }, false)
]

-- What Next does when an item was read.
advance : Iter → Iter
advance li = record li {
  prev_off = li.curr_off;
  prev_len = li.curr_len;
  curr_off = add64 li.curr_off (storage_size li.item);
  curr_len = sub64 li.curr_len 1;
}

-- Next. The search for the next entry goes forward, so `size + 1` rounds are enough.
unfoldable pub next : Log → Iter → Run (Iter × Bool)
unfolding read_loop advance
next l li =
    if li.curr_len == 0 || li.exhausted
    then ok (record li { exhausted = true }, false)
    else if ltb 0 (length l.mmap) && leb l.size li.curr_off
    then ok (record li { exhausted = true }, false)
    else (read_loop (l.size + 1) l li >>= λ (li', read).
        ok (if read then advance li' else li', read))

unfoldable pub current_location : Iter → Location
current_location li = record { key = li.item.key; off = li.prev_off; len = li.prev_len }

-- The items of `for iter.Next() { ... iter.Item() ... }`, for at most `fuel` rounds, and the
-- iterator after the loop.
unfoldable pub collect : ℕ → Log → Iter → Run (List Item × Iter)
collect zero l li = out_of_fuel
collect (suc fuel) l li = do
  (li', more) ← next l li
  let rest = collect fuel l li' >>= λ (items, last). ok (li'.item ∷ items, last)
  if more then rest else ok ([], li')
