-- ===== src/Options.antt =====
-- options.go: the options of a queue and the functions that split keys into buckets. Loggers are
-- left out. A key is an int64 pattern, `n` of FixedSizeBucketSplitConf a uint64.
pub mod Split
use timeq.Base.{
  ℕ, ◌+◌, ◌-◌, ◌*◌, ◌/◌, ◌%◌, ◌^◌, Bool, true, false, ◌&&◌, not, List, Option, none, some, ltb, leb,
  ◌==◌, if◌then◌else◌,
}
use timeq.Base.Words.{lt_i64, le_i64}

-- `SyncData = 1 << iota` stands at iota 1, and the next line repeats it at iota 2.
abbrev pub sync_none : ℕ
sync_none = 0

abbrev pub sync_data : ℕ
sync_data = 2

abbrev pub sync_index : ℕ
sync_index = 4

abbrev pub sync_full : ℕ
sync_full = 6

abbrev pub error_mode_abort : ℕ
error_mode_abort = 0

abbrev pub error_mode_continue : ℕ
error_mode_continue = 1

abbrev error_mode_max : ℕ
error_mode_max = 2

pub sync_mode_is_valid : ℕ → Bool
sync_mode_is_valid sm = le_i64 0 sm && le_i64 sm sync_full

pub error_mode_is_valid : ℕ → Bool
error_mode_is_valid em = lt_i64 em error_mode_max && le_i64 0 em

-- The minimum of an int64, and the pattern of -w.
abbrev sign_bit : ℕ
sign_bit = 2 ^ 63

abbrev pub negate : ℕ → ℕ
negate w = (2 ^ 64 - w) % 2 ^ 64

-- `key & (^Key(0) << shift)`: the bits below `shift` cleared; from 64 on none are left.
unfoldable pub shift_split : ℕ → ℕ → ℕ
shift_split shift key = if ltb shift 64 then key - key % 2 ^ shift else 0

-- a / b of int64 patterns, rounded towards zero, for b not 0.
abbrev pub magnitude : ℕ → ℕ
magnitude w = if ltb w sign_bit then w else 2 ^ 64 - w

abbrev pub is_negative : ℕ → Bool
is_negative w = not (ltb w sign_bit)

pub div_i64 : ℕ → ℕ → ℕ
div_i64 a b =
    let q = magnitude a / magnitude b in
    if is_negative a
    then (if is_negative b then q % 2 ^ 64 else negate q)
    else (if is_negative b then negate q else q)

-- FixedSizeBucketSplitConf: an `n` of 0 counts as 1.
unfoldable pub fixed_split : ℕ → ℕ → ℕ
unfolding div_i64
fixed_split n key = let size : ℕ = if n == 0 then 1 else n in div_i64 key size * size % 2 ^ 64

pub record Options : Type 0 where
  pub sync_mode : ℕ
  pub error_mode : ℕ
  -- The split function, which may be nil.
  pub split : Option (ℕ → ℕ)
  pub max_parallel_open_buckets : ℕ

pub data OptionsError : Type 0 where
  invalid_sync_mode invalid_error_mode no_bucket_func : OptionsError

pub data Validated : Type 0 where
  valid : Options → Validated
  invalid : OptionsError → Validated

-- Validate; -1 is 2 ^ 64 - 1.
unfoldable pub validate : Options → Validated
unfolding sync_mode_is_valid error_mode_is_valid
validate o =
    if not (sync_mode_is_valid o.sync_mode)
    then invalid invalid_sync_mode
    else if not (error_mode_is_valid o.error_mode)
    then invalid invalid_error_mode
    else elim o.split [
      | none ↦ invalid no_bucket_func
      | some f ↦ valid (
          if o.max_parallel_open_buckets == 0
          then record o { max_parallel_open_buckets = 2 ^ 64 - 1 }
          else o)
    ]

-- DefaultOptions, with the split function of ShiftBucketSplitConf(37).
pub default_options : Options
default_options = record {
  sync_mode = sync_full;
  error_mode = error_mode_abort;
  split = some (shift_split 37);
  max_parallel_open_buckets = 4;
}
