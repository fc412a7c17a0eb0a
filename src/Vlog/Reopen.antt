-- ===== src/Vlog/Reopen.antt =====
-- Open and shrink of vlog/vlog.go: the size of the log is found again from its last end mark.
use mathlib.Core.List.{append_assoc, append-nil}
use timeq.Base.{
  ℕ, zero, suc, ◌+◌, ◌≤◌, ◌<◌, ◌≡◌, ◌≢◌, refl, sym, ◌∙◌, ap, Bool, true, false, List, [], ◌∷◌, ◌++◌,
  some, length, get_elem?, get_elem?-append, length-append, arith, ok, ◌&&◌,
}
use timeq.Base.Bytes.{big_endian, zeros, length-zeros}
use timeq.Base.Words.{u32}
use timeq.Item.{Item}
use timeq.Vlog.{Log, OpenAnswers, opened_log, shrink_loop, open_log}
use timeq.Vlog.Entry.{encode, encode_all, Holds, get_elem?-at, length-encode}

get_elem?-zeros : (k i : ℕ) → i < k → get_elem? (zeros k) i ≡ some 0
get_elem?-zeros zero i h = absurd (omega arith)
get_elem?-zeros (suc k) zero h = refl
get_elem?-zeros (suc k) (suc i) h = get_elem?-zeros k i (omega arith)

-- The scan passes over the zeros behind the bytes in use.
shrink_loop-zeros :
    (used : List ℕ) (k j : ℕ)
    → j ≤ k
    → shrink_loop (used ++ zeros k) (length used + j) ≡ shrink_loop (used ++ zeros k) (length used)
unfolding shrink_loop
shrink_loop-zeros used k zero h = let e : length used + 0 ≡ length used = omega arith in rw e
shrink_loop-zeros used k (suc j) h =
    let e : length used + suc j ≡ suc (length used + j) = omega arith in
    rw e (
      rw (get_elem?-append used (zeros k) j, get_elem?-zeros k j (omega arith))
        (shrink_loop-zeros used k j (omega arith)))

-- It ends at the last byte that is not zero.
shrink_loop-mark :
    (used : List ℕ) (rest : List ℕ) (b : ℕ)
    → b ≢ 0
    → shrink_loop ((used ++ (b ∷ [])) ++ rest) (length (used ++ (b ∷ [])))
      ≡ ok (length (used ++ (b ∷ [])))
unfolding shrink_loop
shrink_loop-mark used rest b h =
    let e : length (used ++ (b ∷ [])) ≡ suc (length used) =
      omega (arith, length-append used (b ∷ [])) in
    rw (e, last_byte) (ground arith)
  where
    last_byte : get_elem? ((used ++ (b ∷ [])) ++ rest) (length used) ≡ some b
    last_byte =
        rw (append_assoc used (b ∷ []) rest) (get_elem?-at used (b ∷ rest) (length used) refl)

-- Every entry ends in a byte that is not zero.
encode_all-mark :
    (it : Item) (items : List Item) → (a : List ℕ) × (encode_all (it ∷ items) ≡ a ++ (0xff ∷ []))
encode_all-mark it [] = (
  big_endian 4 (u32 (length it.blob)) ++ (big_endian 8 it.key ++ (it.blob ++ (0xff ∷ []))),
  simp (append_assoc, append-nil),
)
encode_all-mark it (next ∷ items) =
    let (a, e) = encode_all-mark next items in (encode it ++ a, rw e (simp append_assoc))

-- The scan over a whole file finds the end of the last entry.
shrink_loop-Holds :
    (l : Log) (used : List ℕ) (it : Item) (items : List Item) (n : ℕ)
    → Holds l (used ++ encode_all (it ∷ items)) n
    → shrink_loop l.mmap (length l.mmap) ≡ ok l.size
shrink_loop-Holds l used it items n h =
    let (a, mark) = encode_all-mark it items in
    let whole : List ℕ = (used ++ a) ++ (0xff ∷ []) in
    let ends : used ++ encode_all (it ∷ items) ≡ whole =
      rw mark (sym (append_assoc used a (0xff ∷ []))) in
    let total : length (whole ++ zeros n) ≡ length whole + n =
      omega (arith, length-append whole (zeros n), length-zeros n) in
    ap (λ m. shrink_loop m (length m)) (h.shape ∙ ap (λ u. u ++ zeros n) ends)
    ∙ ap (λ s. shrink_loop (whole ++ zeros n) s) total
    ∙ shrink_loop-zeros whole n n (omega arith)
    ∙ shrink_loop-mark (used ++ a) (zeros n) 0xff (omega arith)
    ∙ ap ok (sym (h.sized ∙ ap (λ u. length u) ends))

-- A log that holds at least one entry, followed by zeros, closed and opened again by calls that
-- succeed, has the size that it had: new items go where the old ones end.
pub open_log-Holds :
    (p : ℕ) (l : Log) (used : List ℕ) (it : Item) (items : List Item) (n : ℕ) (sync_on_write : Bool)
    (os : OpenAnswers)
    → Holds l (used ++ encode_all (it ∷ items)) n
    → (os.opened && os.statted && os.mapped) ≡ true
    → open_log p l.mmap sync_on_write os
      ≡ ok (
          opened_log (record {
            mmap = l.mmap;
            size = l.size;
            sync_on_write = sync_on_write;
            is_empty = false;
          }))
unfolding open_log
open_log-Holds p l used it items n sync_on_write os h yes_os =
    ground (arith, shrink_loop-Holds l used it items n h, filled)
  where
    filled : 0 < length l.mmap
    filled = omega (
      arith,
      ap (λ m. length m) h.shape,
      length-append (used ++ encode_all (it ∷ items)) (zeros n),
      length-append used (encode_all (it ∷ items)),
      length-append (encode it) (encode_all items),
      length-encode it,
    )
