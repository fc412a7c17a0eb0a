-- ===== src/Vlog/Push.antt =====
-- Push of vlog/vlog.go on a log whose unused bytes are zeros.
use mathlib.Core.List.{append_assoc, append-nil}
use timeq.Base.{
  ℕ, ◌+◌, ◌-◌, ◌*◌, ◌^◌, ◌≤◌, ◌<◌, ◌≡◌, refl, sym, ◌∙◌, ap, true, false, List, [], ◌∷◌, ◌++◌, none,
  some, length, length-append, arith, ok, ◌>>=◌, Bool-cases, inl, inr, ltb→lt, ltb→ge,
}
use timeq.Base.Words.{add64, lt_i64}
use timeq.Base.Bytes.{zeros, zeros-add, length-zeros}
use timeq.Item.{Item, Location, items_storage_size}
use timeq.Item.Sizes.{entry_size, batch_size, items_storage_size_lem}
use timeq.Vlog.{Log, PushAnswers, write_items, make_room, finish_push, copy_batch, push, next_size}
use timeq.Vlog.Growth.{next_size_bounds}
use timeq.Vlog.Entry.{encode, encode_all, Holds, length-encode, write_item-encode}

pub length-encode_all : (items : List Item) → length (encode_all items) ≡ batch_size items
length-encode_all [] = refl
length-encode_all (it ∷ items) =
    omega (
      arith,
      length-append (encode it) (encode_all items),
      length-encode it,
      length-encode_all items,
    )

-- The loop of Push appends the encodings, one after the other.
pub write_items-encode :
    (l : Log) (items : List Item) (used : List ℕ) (n k : ℕ)
    → Holds l used n
    → n ≡ batch_size items + k
    → write_items l items
      ≡ ok (record l {
        mmap = (used ++ encode_all items) ++ zeros k;
        size = l.size + batch_size items;
      })
unfolding write_items
write_items-encode l [] used n k h e = λ i. ok (record l { mmap = same i; size = kept i })
  where
    none_left : n ≡ k
    none_left = omega (arith, e)

    same : l.mmap ≡ (used ++ []) ++ zeros k
    same = rw (append-nil used, ← none_left) h.shape

    kept : l.size ≡ l.size + 0
    kept = omega arith
write_items-encode l (it ∷ items) used n k h e =
    rw (write_item-encode l it used n (batch_size items + k) h (omega (arith, e)), ◌>>=◌)
      (write_items-encode l' items (used ++ encode it) (batch_size items + k) k holds refl
        ∙ (λ i. ok (record l { mmap = joined i; size = total i })))
  where
    l' : Log
    l' = record l {
      mmap = (used ++ encode it) ++ zeros (batch_size items + k);
      size = l.size + entry_size it;
    }

    holds : Holds l' (used ++ encode it) (batch_size items + k)
    holds = record {
      shape = refl;
      sized = omega (arith, h.sized, length-append used (encode it), length-encode it);
    }

    joined :
        ((used ++ encode it) ++ encode_all items) ++ zeros k
        ≡ (used ++ encode_all (it ∷ items)) ++ zeros k
    joined = simp append_assoc

    total : l.size + entry_size it + batch_size items ≡ l.size + batch_size (it ∷ items)
    total = omega arith

-- What the calls of Push do when none of them fails: mremap keeps the bytes, and the file's new
-- bytes read as zeros.
pub record Succeeds (os : PushAnswers) : Type 0 where
  pub truncates : os.truncated ≡ true
  pub grows : (m : List ℕ) (n : ℕ) → length m ≤ n → os.mremap m n ≡ some (m ++ zeros (n - length m))
  pub syncs : os.synced ≡ true

-- The room that Push makes is enough for the batch, and it does not touch the bytes in use.
pub make_room_lem :
    (p : ℕ) (l : Log) (items : List Item) (os : PushAnswers) (used : List ℕ) (n : ℕ)
    → 0 < p
    → Holds l used n
    → l.size + batch_size items + 128 * p < 2 ^ 63
    → length l.mmap < 2 ^ 63
    → Succeeds os
    → (k : ℕ) × (make_room p l (items_storage_size items) os
        ≡ (record l { mmap = used ++ zeros (batch_size items + k) }, none))
unfolding make_room
make_room_lem p l items os used n hp h fits small yes_os =
    rw (sum_lem) (elim (Bool-cases (lt_i64 (length l.mmap) next)) [
      | inl grow ↦
          let d = next - length l.mmap in
          let wider : n + d ≡ batch_size items + (n + d - batch_size items) =
            omega (arith, bounds, full, ltb→lt _ _ grow, small, fits) in
          (
            n + d - batch_size items,
            rw
                (
                  grow,
                  yes_os.truncates,
                  yes_os.grows l.mmap next (omega (arith, ltb→lt _ _ grow, small, fits, bounds)),
                )
                (λ i. (record l { mmap = (wide d ∙ ap (λ m. used ++ zeros m) wider) i }, none)),
          )
      | inr enough ↦
          let same : n ≡ batch_size items + (n - batch_size items) =
            omega (arith, bounds, full, ltb→ge _ _ enough, small, fits) in
          (
            n - batch_size items,
            rw enough
                (λ i. (record l { mmap = (h.shape ∙ ap (λ m. used ++ zeros m) same) i }, none)),
          )
    ])
  where
    sum_lem : add64 l.size (items_storage_size items) ≡ l.size + batch_size items
    sum_lem = omega (arith, items_storage_size_lem items)

    next : ℕ
    next = next_size p (l.size + batch_size items)

    bounds : (l.size + batch_size items < next) × (next ≤ l.size + batch_size items + 128 * p)
    bounds = let b = next_size_bounds p (l.size + batch_size items) hp fits in (b.0, b.1)

    wide : (d : ℕ) → l.mmap ++ zeros d ≡ used ++ zeros (n + d)
    wide d =
        ap (λ m. m ++ zeros d) h.shape
        ∙ append_assoc used (zeros n) (zeros d)
        ∙ ap (λ m. used ++ m) (sym (zeros-add n d))

    full : length l.mmap ≡ l.size + n
    full =
        ap (λ m. length m) h.shape
        ∙ omega (arith, h.sized, length-append used (zeros n), length-zeros n)

finish_push_lem :
    (l : Log) (it : Item) (items : List Item) (os : PushAnswers)
    → Succeeds os
    → finish_push l (it ∷ items) os ≡ (record l { is_empty = false }, none)
unfolding finish_push
finish_push_lem l it items os h = ground (arith, h.syncs)

-- If all calls succeed and the sizes stay below 2^63, Push on a log whose unused bytes are zeros
-- writes the encodings of the items behind the bytes in use, and zeros follow. It returns the key
-- of the first item, the offset where the batch starts, and its length.
pub push-encode :
    (p : ℕ) (l : Log) (it : Item) (items : List Item) (os : PushAnswers) (used : List ℕ) (n : ℕ)
    → 0 < p
    → Holds l used n
    → l.size + batch_size (it ∷ items) + 128 * p < 2 ^ 63
    → length l.mmap < 2 ^ 63
    → Succeeds os
    → (k : ℕ) × (push p l (it ∷ items) os
        ≡ ok (
          record l {
            mmap = (used ++ encode_all (it ∷ items)) ++ zeros k;
            size = l.size + batch_size (it ∷ items);
            is_empty = false;
          },
          record { key = it.key; off = l.size; len = length (it ∷ items) },
          none,
        ))
unfolding push
push-encode p l it items os used n hp h fits small yes_os =
    let (k, room) = make_room_lem p l (it ∷ items) os used n hp h fits small yes_os in
    let grown : Log = record l { mmap = used ++ zeros (batch_size (it ∷ items) + k) } in
    let holds : Holds grown used (batch_size (it ∷ items) + k) = record {
      shape = refl;
      sized = h.sized;
    } in
    let written =
      write_items-encode grown (it ∷ items) used (batch_size (it ∷ items) + k) k holds refl in
    let loc : Location = record { key = it.key; off = l.size; len = length (it ∷ items) } in
    (
      k,
      ap (λ r. copy_batch r loc (it ∷ items) os) room
          ∙ rw (written, ◌>>=◌) (rw (finish_push_lem _ it items os yes_os)),
    )
