-- ===== src/Base/Bytes.antt =====
-- Byte slices as lists of numbers: Go's slicing and `copy`, and the big-endian integers of
-- encoding/binary. A bound or an index out of range panics.
use Prim.Native.Nat.{ℕ, zero, suc, ◌+◌, ◌-◌, ◌*◌, ◌/◌, ◌%◌, ◌^◌, ◌<◌}
use mathlib.Core.Path.{◌≡◌, refl, ap, ◌∙◌}
use mathlib.Core.Bool.{◌&&◌}
use mathlib.Core.List.{List, [], ◌∷◌, ◌++◌}
use native.Mathlib.Omega.{arith}
use native.Mathlib.Nat.{pow-suc}
use timeq.Base.Tests.{leb, le→leb, if◌then◌else◌}
use timeq.Base.Lists.{
  length, take, drop, replicate, replicate-add, length-replicate, length-append, length-replicate,
  take-append, drop-append,
}
use timeq.Base.Outcome.{Run, ok, panic, ◌>>=◌}

-- The bytes of a fresh buffer.
abbrev pub zeros : ℕ → List ℕ
zeros n = replicate n 0

pub length-zeros : (n : ℕ) → length (zeros n) ≡ n
length-zeros n = length-replicate n 0

pub zeros-add : (a b : ℕ) → zeros (a + b) ≡ zeros a ++ zeros b
zeros-add a b = replicate-add a b 0

-- m[off:]
unfoldable pub slice_from : List ℕ → ℕ → Run (List ℕ)
slice_from m off = if leb off (length m) then ok (drop off m) else panic

-- m[lo:hi]
unfoldable pub slice : List ℕ → ℕ → ℕ → Run (List ℕ)
slice m lo hi = if leb lo hi && leb hi (length m) then ok (take (hi - lo) (drop lo m)) else panic

-- The bytes `b` over the first bytes of `m`.
unfoldable pub overlay : List ℕ → List ℕ → Run (List ℕ)
overlay m [] = ok m
overlay [] (x ∷ b) = panic
overlay (y ∷ m) (x ∷ b) = overlay m b >>= λ r. ok (x ∷ r)

-- Writes `b` at `off`: PutUint32 and PutUint64 at m[off:], or an assignment to m[off].
unfoldable pub write_at : List ℕ → ℕ → List ℕ → Run (List ℕ)
unfolding overlay
write_at m zero b = overlay m b
write_at [] (suc off) b = panic
write_at (y ∷ m) (suc off) b = write_at m off b >>= λ r. ok (y ∷ r)

-- copy(m[off:], b): as many bytes as fit, and their number.
unfoldable pub copy_at : List ℕ → ℕ → List ℕ → Run (List ℕ × ℕ)
unfolding slice_from write_at
copy_at m off b = slice_from m off >>= λ room.
    let fits = take (length room) b in write_at m off fits >>= λ r. ok (r, length fits)

-- The last `n` base-256 digits of `v`, highest first.
unfoldable pub big_endian : ℕ → ℕ → List ℕ
big_endian zero v = []
big_endian (suc n) v = big_endian n (v / 256) ++ (v % 256 ∷ [])

unfoldable pub be_value : ℕ → List ℕ → ℕ
be_value acc [] = acc
be_value acc (x ∷ b) = be_value (acc * 256 + x) b

-- binary.BigEndian.Uint32(m) at n = 4 and Uint64(m) at n = 8.
unfoldable pub read_be : ℕ → List ℕ → Run ℕ
unfolding be_value
read_be n m = if leb n (length m) then ok (be_value 0 (take n m)) else panic

be_value-append : (acc : ℕ) (a b : List ℕ) → be_value acc (a ++ b) ≡ be_value (be_value acc a) b
unfolding be_value
be_value-append acc [] b = refl
be_value-append acc (x ∷ a) b = be_value-append (acc * 256 + x) a b

pub length-big_endian : (n v : ℕ) → length (big_endian n v) ≡ n
unfolding big_endian
length-big_endian zero v = refl
length-big_endian (suc n) v =
    omega
      (arith, length-append (big_endian n (v / 256)) (v % 256 ∷ []), length-big_endian n (v / 256))

shrinks : (n v : ℕ) → v < 256 ^ suc n → v / 256 < 256 ^ n
shrinks n v h = let bound : v < 256 ^ n * 256 = rw (pow-suc 256 n) at h in omega arith

-- Reading back what was written gives the number, if it has at most `n` bytes.
pub be_value-big_endian : (n v : ℕ) → v < 256 ^ n → be_value 0 (big_endian n v) ≡ v
unfolding be_value big_endian
be_value-big_endian zero v h = omega arith
be_value-big_endian (suc n) v h =
    be_value-append 0 (big_endian n (v / 256)) (v % 256 ∷ [])
    ∙ omega (arith, be_value-big_endian n (v / 256) (shrinks n v h))

pub read_be-big_endian :
    (n v : ℕ) (rest : List ℕ) → v < 256 ^ n → read_be n (big_endian n v ++ rest) ≡ ok v
unfolding read_be
read_be-big_endian n v rest h = rw (
  le→leb n (length (big_endian n v ++ rest))
      (omega (arith, length-append (big_endian n v) rest, length-big_endian n v)),
  cut,
  be_value-big_endian n v h,
)
  where
    cut : take n (big_endian n v ++ rest) ≡ big_endian n v
    cut = rw (length-big_endian n v) at (take-append (big_endian n v) rest)

pub slice_from-append : (a b : List ℕ) (off : ℕ) → off ≡ length a → slice_from (a ++ b) off ≡ ok b
unfolding slice_from
slice_from-append a b off e =
    rw (e, le→leb (length a) (length (a ++ b)) (omega (arith, length-append a b)), drop-append a b)

pub overlay_lem :
    (old b rest : List ℕ) → length old ≡ length b → overlay (old ++ rest) b ≡ ok (b ++ rest)
unfolding overlay
overlay_lem [] [] rest h = refl
overlay_lem [] (x ∷ b) rest h = absurd (omega arith)
overlay_lem (y ∷ old) [] rest h = absurd (omega arith)
overlay_lem (y ∷ old) (x ∷ b) rest h = rw (overlay_lem old b rest (omega arith))

-- A write past the prefix `a` leaves the prefix and what follows the written bytes.
pub write_at_lem :
    (a old b rest : List ℕ) (off : ℕ)
    → off ≡ length a
    → length old ≡ length b
    → write_at (a ++ (old ++ rest)) off b ≡ ok (a ++ (b ++ rest))
unfolding write_at
write_at_lem [] old b rest zero e h = overlay_lem old b rest h
write_at_lem [] old b rest (suc off) e h = absurd (omega arith)
write_at_lem (y ∷ a) old b rest zero e h = absurd (omega arith)
write_at_lem (y ∷ a) old b rest (suc off) e h = rw (write_at_lem a old b rest off (omega arith) h)

-- A slice out of the middle.
pub slice_lem :
    (a b c : List ℕ) (lo hi : ℕ)
    → lo ≡ length a
    → hi ≡ length a + length b
    → slice (a ++ (b ++ c)) lo hi ≡ ok b
unfolding slice
slice_lem a b c lo hi el eh =
    rw
      (
        el,
        eh,
        le→leb (length a) (length a + length b) (omega arith),
        le→leb (length a + length b) (length (a ++ (b ++ c)))
            (omega (arith, length-append a (b ++ c), length-append b c)),
        drop-append a (b ++ c),
      )
      (let same : length a + length b - length a ≡ length b = omega arith in
        rw same (ap ok (take-append b c)))
