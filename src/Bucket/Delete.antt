-- ===== src/Bucket/Delete.antt =====
-- Delete of bucket.go: the items of a key range are taken out of a fork.
use timeq.Base.{
  ℕ, zero, suc, ◌+◌, Bool, false, not, ◌&&◌, List, [], ◌∷◌, ◌++◌, Option, none, some, Run, ok,
  out_of_fuel, ◌>>=◌, ltb, ◌==◌, if◌then◌else◌,
}
use timeq.Base.Words.{add64, sub64, lt_i64}
use timeq.Item.{Item, Location}
use timeq.Btree.{OrderedMap}
use timeq.Vlog.{Log}
use timeq.Vlog.Iter.{Iter, next, current_location}
use timeq.Index.{Index, set, delete, no_location, LocIter, loc_iter, next_loc, value}
use timeq.Index.Codec.{WriteAnswer, FileError, Writer}
use timeq.Index.Codec
use timeq.Bucket.{
  Bucket, BucketIndex, BucketError, ForkName, no_such_fork, to_before_from, idx_for_fork, put_index,
  log_at,
}
use timeq.Bucket.Pop.{dead_location}

-- The parts of a location on the left and on the right of the range.
pub record Parts : Type 0 where
  pub left : Location
  pub right : Location

-- Whether the loop over the items breaks at this one.
abbrev pub past_range : ℕ → Parts → Item → Bool
past_range to p it = lt_i64 to it.key && (p.right.len == 0)

abbrev pub count_left : ℕ → Parts → Item → Parts
count_left from p it =
    if lt_i64 it.key from
    then record p { left = record { key = p.left.key; off = p.left.off; len = add64 p.left.len 1 } }
    else p

-- The loop over the items of a location; each round moves the iterator forward in the log.
unfoldable pub split_loop : ℕ → Log → ℕ → ℕ → Iter → Parts → Run Parts
split_loop zero l from to li p = out_of_fuel
split_loop (suc fuel) l from to li p = next l li >>= λ r.
    (let p' = count_left from p r.0.item in
      let rest = split_loop fuel l from to r.0 p' in
      if not r.1
      then ok p
      else if past_range to p' r.0.item
      then ok (record p' { right = current_location r.0 })
      else rest)

module _ (M : OrderedMap (List Location)) where
  -- The variables of Delete; the errors are those that errors.Join joins.
  pub record Cuts : Type 0 where
    pub log : Writer
    pub writes : ℕ
    pub ndeleted : ℕ
    pub delete_entries : List ℕ
    pub partial_set_entries : List Location
    pub push_err : List FileError

  abbrev pub join : List FileError → Option FileError → List FileError
  join es none = es
  join es (some e) = es ++ (e ∷ [])

  -- A push to the index log with its error joined.
  abbrev pub pushed : Cuts → Writer × Option FileError → Cuts
  pushed c (w, e) = record c { log = w; writes = c.writes + 1; push_err = join c.push_err e }

  unfoldable pub push_joined : Cuts → Location → ℕ → (ℕ → WriteAnswer) → Cuts
  push_joined c loc total os =
      pushed c (Codec.push c.log loc (record { total_entries = total }) (os c.writes))

  -- What is left of an affected location, on one side.
  unfoldable pub keep_part : Cuts → Location → ℕ → (ℕ → WriteAnswer) → Cuts
  unfolding push_joined
  keep_part c loc total os =
      if ltb 0 loc.len
      then push_joined (record c { partial_set_entries = c.partial_set_entries ++ (loc ∷ []) }) loc
          total os
      else c

  -- A round of the loop over the index, for the location `loc`.
  unfoldable pub cut_loc : ℕ → (ℕ → WriteAnswer) → Location → Parts → Cuts → Cuts
  unfolding keep_part
  cut_loc len_before os loc p c =
      let shrinked = sub64 (sub64 loc.len p.left.len) p.right.len in
      let counted : Cuts = record c {
        delete_entries = c.delete_entries ++ (loc.key ∷ []);
        ndeleted = add64 c.ndeleted shrinked;
      } in
      let kept = keep_part counted p.left (sub64 (sub64 len_before loc.len) p.left.len) os in
      if shrinked == 0 then c else keep_part kept p.right (sub64 len_before kept.ndeleted) os

  -- The loop over the index: one round for each location, and the last.
  unfoldable pub cut_loop :
      ℕ → Bucket M → ℕ → ℕ → ℕ → (ℕ → WriteAnswer) → LocIter M → Cuts → Run Cuts
  unfolding cut_loc split_loop
  cut_loop zero b from to len_before os it c = out_of_fuel
  cut_loop (suc fuel) b from to len_before os it c =
      let (it', more) = next_loc M it in
      let loc = value M it' in
      let start : Parts = record {
        left = record { key = loc.key; off = loc.off; len = 0 };
        right = no_location;
      } in
      let cut = split_loop (b.log.size + 1) b.log from to (log_at M b loc) start >>= λ p.
      cut_loop fuel b from to len_before os it' (cut_loc len_before os loc p c) in
      if not more then ok c else if lt_i64 to loc.key then ok c else cut

  -- The loop over deleteEntries.
  unfoldable pub delete_loop :
      Index M → List ℕ → ℕ → (ℕ → WriteAnswer) → Cuts → Run (Index M × Cuts)
  unfolding push_joined
  delete_loop mem [] len_before os c = ok (mem, c)
  delete_loop mem (key ∷ keys) len_before os c = delete M mem key >>= λ r.
      delete_loop r.0 keys len_before os
        (push_joined c (dead_location key) (sub64 len_before c.ndeleted) os)

  -- The loop over partialSetEntries.
  abbrev pub set_loop : Index M → List Location → Index M
  set_loop mem [] = mem
  set_loop mem (loc ∷ locs) = set_loop (set M mem loc) locs

  -- How Delete ends: the number of deleted items, and its errors.
  pub record Deleted : Type 0 where
    pub bucket : Bucket M
    pub ndeleted : ℕ
    pub refused : Option BucketError
    pub errs : List FileError

  abbrev pub no_change : Bucket M → Option BucketError → Deleted
  no_change b e = record { bucket = b; ndeleted = 0; refused = e; errs = [] }

  abbrev pub cuts_start : BucketIndex M → Cuts
  cuts_start idx = record {
    log = idx.log;
    writes = 0;
    ndeleted = 0;
    delete_entries = [];
    partial_set_entries = [];
    push_err = [];
  }

  unfoldable pub delete_range :
      ℕ → Bucket M → ForkName → BucketIndex M → ℕ → ℕ → (ℕ → WriteAnswer) → Bool → Run Deleted
  unfolding cut_loop delete_loop
  delete_range fuel b fork idx from to os synced =
      cut_loop fuel b from to idx.mem.len os (loc_iter M idx.mem) (cuts_start idx) >>= λ c.
      delete_loop idx.mem c.delete_entries idx.mem.len os c >>= λ r.
      (let new : BucketIndex M = record {
        log = r.1.log;
        mem = set_loop r.0 c.partial_set_entries;
      } in
        ok (record {
          bucket = record b { indexes = put_index M b.indexes fork new };
          ndeleted = r.1.ndeleted;
          refused = none;
          errs = join r.1.push_err (Codec.sync r.1.log false synced);
        }))

  unfoldable pub delete_keys :
      ℕ → Bucket M → ForkName → ℕ → ℕ → (ℕ → WriteAnswer) → Bool → Run Deleted
  unfolding delete_range
  delete_keys fuel b fork from to os synced =
      if lt_i64 to b.key
      then ok (no_change b none)
      else if lt_i64 to from
      then ok (no_change b (some to_before_from))
      else elim (idx_for_fork M b fork) [
        | none ↦ ok (no_change b (some no_such_fork))
        | some idx ↦ delete_range fuel b fork idx from to os synced
      ]
