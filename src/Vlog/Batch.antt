-- ===== src/Vlog/Batch.antt =====
-- A batch of items that lies intact in the log.
use mathlib.Core.List.{append_assoc}
use timeq.Base.{
  ℕ, ◌+◌, ◌^◌, ◌≤◌, ◌<◌, ◌≡◌, sym, ◌∙◌, ap, append_split, List, ◌∷◌, ◌++◌, length, length-append,
  arith, All,
}
use timeq.Base.Bytes.{zeros}
use timeq.Item.{Item}
use timeq.Item.Sizes.{entry_size, batch_size}
use timeq.Vlog.{Log}
use timeq.Vlog.Entry.{Holds, IsStorable, encode, encode_all, length-encode}
use timeq.Vlog.Push.{length-encode_all}

-- The encodings of `items` stand at `off`, within the size of the log.
pub record HasBatch (l : Log) (off : ℕ) (items : List Item) : Type 0 where
  pub front : List ℕ
  pub back : List ℕ
  pub shape : l.mmap ≡ front ++ (encode_all items ++ back)
  pub offset : off ≡ length front
  pub inside : length front + batch_size items ≤ l.size
  pub small : l.size < 2 ^ 63
  pub storable : All IsStorable items

-- The items after the first are a batch that stands behind it.
pub HasBatch-tail :
    (l : Log) (off : ℕ) (it : Item) (items : List Item)
    → HasBatch l off (it ∷ items)
    → HasBatch l (off + entry_size it) items
HasBatch-tail l off it items b = record {
  front = b.front ++ encode it;
  back = b.back;
  shape = b.shape ∙ simp append_assoc;
  offset = omega (arith, b.offset, length-append b.front (encode it), length-encode it);
  inside = omega (arith, b.inside, length-append b.front (encode it), length-encode it);
  small = b.small;
  storable = b.storable.1;
}

-- A batch appended to the bytes in use.
pub HasBatch-appended :
    (l : Log) (used : List ℕ) (items : List Item) (k off : ℕ)
    → Holds l (used ++ encode_all items) k
    → off ≡ length used
    → l.size < 2 ^ 63
    → All IsStorable items
    → HasBatch l off items
HasBatch-appended l used items k off h e small st = record {
  front = used;
  back = zeros k;
  shape = h.shape ∙ append_assoc used (encode_all items) (zeros k);
  offset = e;
  inside = omega (arith, h.sized, length-append used (encode_all items), length-encode_all items);
  small = small;
  storable = st;
}

-- What was in the log before more bytes were appended is there after it.
pub HasBatch-kept :
    (l l' : Log) (used more : List ℕ) (n k off : ℕ) (items : List Item)
    → Holds l used n
    → Holds l' (used ++ more) k
    → l'.size < 2 ^ 63
    → HasBatch l off items
    → HasBatch l' off items
HasBatch-kept l l' used more n k off items h h' small b =
    let within : length (b.front ++ encode_all items) ≤ length used = omega (
      arith,
      b.inside,
      h.sized,
      length-append b.front (encode_all items),
      length-encode_all items,
    ) in
    let (t, split) =
      append_split (b.front ++ encode_all items) b.back used (zeros n)
        (append_assoc b.front (encode_all items) b.back ∙ sym b.shape ∙ h.shape) within in
    record {
      front = b.front;
      back = t ++ (more ++ zeros k);
      shape =
          h'.shape
          ∙ ap (λ u. (u ++ more) ++ zeros k) split
          ∙ regroup (b.front ++ encode_all items) t
          ∙ append_assoc b.front (encode_all items) (t ++ (more ++ zeros k));
      offset = b.offset;
      inside = omega (arith, b.inside, h.sized, h'.sized, length-append used more);
      small = small;
      storable = b.storable;
    }
  where
    regroup : (a t : List ℕ) → ((a ++ t) ++ more) ++ zeros k ≡ a ++ (t ++ (more ++ zeros k))
    regroup a t = simp append_assoc
