-- ===== src/Bucket/Names.antt =====
-- Names of forks and of the files of their index logs: idxPath of bucket.go, ReadTrailers of
-- index/reader.go and ForkName.Validate of api.go. A name is its bytes; a directory is left out of a
-- path. The runes of a name and the classes of the unicode package are parameters.
use mathlib.Core.List.{append_assoc}
use timeq.Base.{
  ℕ, ◌-◌, ◌≡◌, refl, sym, ◌∙◌, ap, Bool, true, false, ◌&&◌, ◌||◌, List, [], ◌∷◌, ◌++◌, Option, none,
  some, length, length-append, take, drop, take-append, drop-append, Run, ok, ◌>>=◌, leb, le→leb,
  ◌==◌, if◌then◌else◌, arith,
}
use timeq.Index.{Trailer}
use timeq.Index.Codec.{read_trailer}
use timeq.Bucket.{ForkName, name_eq}

-- strings.HasSuffix and strings.TrimSuffix.
unfoldable pub has_suffix : List ℕ → List ℕ → Bool
unfolding name_eq
has_suffix s suffix =
    if leb (length suffix) (length s)
    then name_eq (drop (length s - length suffix) s) suffix
    else false

unfoldable pub trim_suffix : List ℕ → List ℕ → List ℕ
unfolding has_suffix
trim_suffix s suffix = if has_suffix s suffix then take (length s - length suffix) s else s

-- "idx.log"
abbrev pub idx_log : List ℕ
idx_log = 105 ∷ 100 ∷ 120 ∷ 46 ∷ 108 ∷ 111 ∷ 103 ∷ []

-- "."
abbrev pub dot : List ℕ
dot = 46 ∷ []

-- The file name of idxPath.
unfoldable pub idx_name : ForkName → List ℕ
idx_name [] = idx_log
idx_name (c ∷ cs) = (c ∷ cs) ++ (dot ++ idx_log)

-- The fork of a file in ReadTrailers, if the file is an index log.
unfoldable pub consumer_name : List ℕ → Option ForkName
unfolding has_suffix trim_suffix
consumer_name name =
    if has_suffix name idx_log then some (trim_suffix (trim_suffix name idx_log) dot) else none

-- A round of ReadTrailers; `rest` are the trailers of the other files.
abbrev pub add_trailer :
    List ℕ → Option ForkName → Run (List (ForkName × Trailer)) → Run (List (ForkName × Trailer))
add_trailer file none rest = rest
add_trailer file (some fork) rest = read_trailer file >>= λ t. rest >>= λ ts. ok ((fork, t) ∷ ts)

-- ReadTrailers: what its callback is called with, for the names and the files of a directory.
unfoldable pub read_trailers : List (List ℕ × List ℕ) → Run (List (ForkName × Trailer))
unfolding consumer_name
read_trailers [] = ok []
read_trailers ((name, file) ∷ ents) = add_trailer file (consumer_name name) (read_trailers ents)

module _ (runes : ForkName → List ℕ) (is_upper is_lower is_digit : ℕ → Bool) where
  -- '-' and '_' are 45 and 95.
  abbrev pub rune_allowed : ℕ → Bool
  rune_allowed rn = is_upper rn || is_lower rn || is_digit rn || rn == 45 || rn == 95

  abbrev pub all_allowed : List ℕ → Bool
  all_allowed [] = true
  all_allowed (rn ∷ rns) = rune_allowed rn && all_allowed rns

  -- Validate: whether it returns no error.
  unfoldable pub validate_name : ForkName → Bool
  validate_name [] = false
  validate_name (c ∷ cs) = all_allowed (runes (c ∷ cs))

pub name_eq_refl : (name : ForkName) → name_eq name name ≡ true
unfolding name_eq
name_eq_refl [] = refl
name_eq_refl (c ∷ cs) = ground (arith, name_eq_refl cs)

module _ (s suffix : List ℕ) where
  cut_at : length (s ++ suffix) - length suffix ≡ length s
  cut_at = omega (arith, length-append s suffix)

  has_suffix-append : has_suffix (s ++ suffix) suffix ≡ true
  unfolding has_suffix
  has_suffix-append =
      let fits : leb (length suffix) (length (s ++ suffix)) ≡ true =
        le→leb (length suffix) (length (s ++ suffix)) (omega (arith, length-append s suffix)) in
      ap
        (λ t.
          if t
          then name_eq (drop (length (s ++ suffix) - length suffix) (s ++ suffix)) suffix
          else false)
        fits
      ∙ ap (λ n. name_eq (drop n (s ++ suffix)) suffix) cut_at
      ∙ ap (λ r. name_eq r suffix) (drop-append s suffix)
      ∙ name_eq_refl suffix

  trim_suffix-append : trim_suffix (s ++ suffix) suffix ≡ s
  unfolding trim_suffix
  trim_suffix-append =
      ap (λ t. if t then take (length (s ++ suffix) - length suffix) (s ++ suffix) else s ++ suffix)
        has_suffix-append
      ∙ ap (λ n. take n (s ++ suffix)) cut_at
      ∙ take-append s suffix

-- ReadTrailers finds the name of a fork again in the file name that idxPath gives its index log,
-- whatever the name is.
pub consumer_name-idx_name : (fork : ForkName) → consumer_name (idx_name fork) ≡ some fork
unfolding consumer_name idx_name
consumer_name-idx_name [] =
    ap (λ t. if t then some (trim_suffix (trim_suffix idx_log idx_log) dot) else none)
      (has_suffix-append [] idx_log)
    ∙ ap (λ r. some (trim_suffix r dot)) (trim_suffix-append [] idx_log)
consumer_name-idx_name (c ∷ cs) =
    ap
      (λ name.
        if has_suffix name idx_log then some (trim_suffix (trim_suffix name idx_log) dot) else none)
      (sym (append_assoc (c ∷ cs) dot idx_log))
    ∙ ap
        (λ t.
          if t
          then some (trim_suffix (trim_suffix (((c ∷ cs) ++ dot) ++ idx_log) idx_log) dot)
          else none)
        (has_suffix-append ((c ∷ cs) ++ dot) idx_log)
    ∙ ap (λ r. some (trim_suffix r dot)) (trim_suffix-append ((c ∷ cs) ++ dot) idx_log)
    ∙ ap some (trim_suffix-append (c ∷ cs) dot)
