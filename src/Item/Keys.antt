-- ===== src/Item/Keys.antt =====
-- Key.String and KeyFromString of item/item.go, on the bytes of strings: what fmt's %020d writes,
-- and what strings.TrimPrefix, filepath.Base and strconv.ParseInt read.
use mathlib.Core.List.{append_assoc, append-nil}
use native.Mathlib.Nat.{pow-suc, mul_assoc}
use timeq.Base.{
  ℕ, zero, suc, ◌+◌, ◌-◌, ◌*◌, ◌/◌, ◌%◌, ◌^◌, ◌≤◌, ◌<◌, ◌≡◌, refl, sym, ◌∙◌, ap, Bool, true, false,
  ◌&&◌, ◌||◌, List, [], ◌∷◌, ◌++◌, Option, none, some, arith, All, All-append, All-map, length,
  length-append, ltb, leb, ◌==◌, if◌then◌else◌, Bool-cases, inl, inr,
}

-- The last `w` decimal digits.
unfoldable pub digits : ℕ → ℕ → List ℕ
digits zero n = []
digits (suc w) n = digits w (n / 10) ++ ((48 + n % 10) ∷ [])

abbrev pub is_negative : ℕ → Bool
is_negative k = leb (2 ^ 63) k

-- Key.String: "K", and the number padded with zeros to twenty bytes, its sign among them. An int64
-- has at most nineteen digits.
unfoldable pub key_string : ℕ → List ℕ
key_string k = 75 ∷ (if is_negative k then 45 ∷ digits 19 (2 ^ 64 - k) else digits 20 k)

-- strings.TrimPrefix(s, "K")
unfoldable pub trim_prefix : List ℕ → List ℕ
trim_prefix [] = []
trim_prefix (c ∷ s) = if c == 75 then s else c ∷ s

-- filepath.Base: without the slashes at the end, what follows the last slash.
unfoldable pub strip_slashes : List ℕ → List ℕ
strip_slashes [] = []
strip_slashes (c ∷ s) = kept (strip_slashes s)
  where
    kept : List ℕ → List ℕ
    kept [] = if c == 47 then [] else c ∷ []
    kept (d ∷ r) = c ∷ d ∷ r

unfoldable pub has_slash : List ℕ → Bool
has_slash [] = false
has_slash (c ∷ s) = c == 47 || has_slash s

unfoldable pub after_slash : List ℕ → List ℕ
unfolding has_slash
after_slash [] = []
after_slash (c ∷ s) =
    let rest = after_slash s in if has_slash s then rest else if c == 47 then s else c ∷ s

abbrev or_slash : List ℕ → List ℕ
or_slash [] = 47 ∷ []
or_slash (c ∷ s) = c ∷ s

unfoldable pub base : List ℕ → List ℕ
unfolding after_slash strip_slashes
base [] = 46 ∷ []
base (c ∷ s) = or_slash (after_slash (strip_slashes (c ∷ s)))

-- strconv.ParseInt in base 10 for 64 bits, or none for an error; a sign may come first.
abbrev is_digit : ℕ → Bool
is_digit c = leb 48 c && leb c 57

unfoldable pub read_digits : ℕ → List ℕ → Option ℕ
read_digits n [] = some n
read_digits n (c ∷ s) =
    let rest = read_digits (n * 10 + (c - 48)) s in if is_digit c then rest else none

unfoldable pub parse_uint : List ℕ → Option ℕ
unfolding read_digits
parse_uint [] = none
parse_uint (c ∷ s) = read_digits 0 (c ∷ s)

abbrev in_range : Bool → Option ℕ → Option ℕ
in_range negative none = none
in_range true (some n) = if leb n (2 ^ 63) then some ((2 ^ 64 - n) % 2 ^ 64) else none
in_range false (some n) = if ltb n (2 ^ 63) then some n else none

unfoldable pub parse_int : List ℕ → Option ℕ
unfolding parse_uint
parse_int [] = none
parse_int (c ∷ s) =
    if c == 45
    then in_range true (parse_uint s)
    else if c == 43
    then in_range false (parse_uint s)
    else in_range false (parse_uint (c ∷ s))

-- KeyFromString
unfoldable pub key_from_string : List ℕ → Option ℕ
unfolding trim_prefix base parse_int
key_from_string s = parse_int (base (trim_prefix s))

abbrev NoSlash : List ℕ → Type 0
NoSlash s = All (λ c. (c == 47) ≡ false) s

has_slash-NoSlash : (s : List ℕ) → NoSlash s → has_slash s ≡ false
unfolding has_slash
has_slash-NoSlash [] h = refl
has_slash-NoSlash (c ∷ s) h = rw (h.0, has_slash-NoSlash s h.1)

strip_slashes-NoSlash : (s : List ℕ) → NoSlash s → strip_slashes s ≡ s
unfolding strip_slashes
strip_slashes-NoSlash [] h = refl
strip_slashes-NoSlash (c ∷ []) h = rw h.0
strip_slashes-NoSlash (c ∷ d ∷ s) h = rw (strip_slashes-NoSlash (d ∷ s) h.1)

after_slash-NoSlash : (s : List ℕ) → NoSlash s → after_slash s ≡ s
unfolding after_slash
after_slash-NoSlash [] h = refl
after_slash-NoSlash (c ∷ s) h = rw (has_slash-NoSlash s h.1, h.0)

base-NoSlash : (s : List ℕ) → NoSlash s → 0 < length s → base s ≡ s
unfolding base
base-NoSlash [] h pos = absurd (omega arith)
base-NoSlash (c ∷ s) h pos =
    ap (λ r. or_slash (after_slash r)) (strip_slashes-NoSlash (c ∷ s) h)
    ∙ ap or_slash (after_slash-NoSlash (c ∷ s) h)

abbrev Digits : List ℕ → Type 0
Digits s = All (λ c. 48 ≤ c) s

digits-Digits : (w n : ℕ) → Digits (digits w n)
unfolding digits
digits-Digits zero n = tt
digits-Digits (suc w) n =
    All-append (λ c. 48 ≤ c) (digits w (n / 10)) ((48 + n % 10) ∷ []) (digits-Digits w (n / 10))
      (omega arith, tt)

Digits-NoSlash : (s : List ℕ) → Digits s → NoSlash s
Digits-NoSlash s h = All-map s (λ c p. ground (arith, p)) h

length-digits : (w n : ℕ) → length (digits w n) ≡ w
unfolding digits
length-digits zero n = refl
length-digits (suc w) n =
    omega (arith, length-append (digits w (n / 10)) ((48 + n % 10) ∷ []), length-digits w (n / 10))

shorter : (w n : ℕ) → n < 10 ^ suc w → n / 10 < 10 ^ w
shorter w n h = let bound : n < 10 ^ w * 10 = rw (pow-suc 10 w) at h in omega arith

digit_step :
    (m d : ℕ) (rest : List ℕ)
    → d < 10
    → read_digits m ((48 + d) ∷ rest) ≡ read_digits (m * 10 + d) rest
unfolding read_digits
digit_step m d rest h =
    let digit : is_digit (48 + d) ≡ true = ground (arith, h) in
    let value : m * 10 + (48 + d - 48) ≡ m * 10 + d = omega arith in rw (digit, value)

place_value : (w n acc : ℕ) → (acc * 10 ^ w + n / 10) * 10 + n % 10 ≡ acc * 10 ^ suc w + n
place_value w n acc =
    let places : acc * 10 ^ suc w ≡ acc * 10 ^ w * 10 =
      ap (λ p. acc * p) (pow-suc 10 w) ∙ sym (mul_assoc acc (10 ^ w) 10) in
    omega (arith, places)

read_digits-digits :
    (w n acc : ℕ) (rest : List ℕ)
    → n < 10 ^ w
    → read_digits acc (digits w n ++ rest) ≡ read_digits (acc * 10 ^ w + n) rest
unfolding read_digits digits
read_digits-digits zero n acc rest h = ap (λ m. read_digits m rest) (omega (arith, h))
read_digits-digits (suc w) n acc rest h =
    ap (read_digits acc) (append_assoc (digits w (n / 10)) ((48 + n % 10) ∷ []) rest)
    ∙ read_digits-digits w (n / 10) acc ((48 + n % 10) ∷ rest) (shorter w n h)
    ∙ digit_step (acc * 10 ^ w + n / 10) (n % 10) rest (omega arith)
    ∙ ap (λ m. read_digits m rest) (place_value w n acc)

parse_uint-nonempty : (s : List ℕ) → 0 < length s → parse_uint s ≡ read_digits 0 s
unfolding parse_uint
parse_uint-nonempty [] h = absurd (omega arith)
parse_uint-nonempty (c ∷ s) h = refl

-- The digits of a number are read as the number.
parse_uint-digits : (w n : ℕ) → 0 < w → n < 10 ^ w → parse_uint (digits w n) ≡ some n
unfolding read_digits
parse_uint-digits w n pos h =
    let value : 0 * 10 ^ w + n ≡ n = omega arith in
    parse_uint-nonempty (digits w n) (omega (arith, length-digits w n))
    ∙ ap (read_digits 0) (sym (append-nil (digits w n)))
    ∙ read_digits-digits w n 0 [] h
    ∙ ap some value

parse_int-Digits :
    (s : List ℕ) → Digits s → 0 < length s → parse_int s ≡ in_range false (parse_uint s)
unfolding parse_int
parse_int-Digits [] h pos = absurd (omega arith)
parse_int-Digits (c ∷ s) h pos =
    let no_minus : (c == 45) ≡ false = ground (arith, h.0) in
    let no_plus : (c == 43) ≡ false = ground (arith, h.0) in rw (no_minus, no_plus)

key_from_string-K : (s : List ℕ) → NoSlash s → 0 < length s → key_from_string (75 ∷ s) ≡ parse_int s
unfolding key_from_string trim_prefix
key_from_string-K s h pos = ap parse_int (base-NoSlash s h pos)

key_from_string-positive :
    (w n : ℕ) → 0 < w → n < 10 ^ w → n < 2 ^ 63 → key_from_string (75 ∷ digits w n) ≡ some n
key_from_string-positive w n pos h small =
    let room : 0 < length (digits w n) = omega (arith, length-digits w n) in
    let fits : ltb n (2 ^ 63) ≡ true = ground (arith, small) in
    key_from_string-K (digits w n) (Digits-NoSlash (digits w n) (digits-Digits w n)) room
    ∙ parse_int-Digits (digits w n) (digits-Digits w n) room
    ∙ ap (in_range false) (parse_uint-digits w n pos h)
    ∙ ap (λ t. if t then some n else none) fits

key_from_string-negative :
    (w n : ℕ)
    → 0 < w
    → n < 10 ^ w
    → n ≤ 2 ^ 63
    → key_from_string (75 ∷ 45 ∷ digits w n) ≡ some ((2 ^ 64 - n) % 2 ^ 64)
unfolding parse_int
key_from_string-negative w n pos h small =
    let fits : leb n (2 ^ 63) ≡ true = ground (arith, small) in
    key_from_string-K (45 ∷ digits w n) (refl, Digits-NoSlash (digits w n) (digits-Digits w n))
      (omega arith)
    ∙ ap (in_range true) (parse_uint-digits w n pos h)
    ∙ ap (λ t. if t then some ((2 ^ 64 - n) % 2 ^ 64) else none) fits

-- KeyFromString reads back what String writes, for every key, a pattern of 64 bits.
pub key_from_string-key_string : (k : ℕ) → k < 2 ^ 64 → key_from_string (key_string k) ≡ some k
unfolding key_string
key_from_string-key_string k h = elim (Bool-cases (is_negative k)) [
  | inl e ↦
      let below : 2 ^ 64 - k ≤ 2 ^ 63 = ground (arith, e) in
      let back : (2 ^ 64 - (2 ^ 64 - k)) % 2 ^ 64 ≡ k = omega (arith, h) in
      ap (λ t. key_from_string (75 ∷ (if t then 45 ∷ digits 19 (2 ^ 64 - k) else digits 20 k))) e
      ∙ key_from_string-negative 19 (2 ^ 64 - k) (omega arith) (omega (arith, below)) below
      ∙ ap some back
  | inr e ↦
      let below : k < 2 ^ 63 = ground (arith, e) in
      ap (λ t. key_from_string (75 ∷ (if t then 45 ∷ digits 19 (2 ^ 64 - k) else digits 20 k))) e
      ∙ key_from_string-positive 20 k (omega arith) (omega (arith, below)) below
]
