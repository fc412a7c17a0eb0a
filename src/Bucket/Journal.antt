-- ===== src/Bucket/Journal.antt =====
-- The index logs of a bucket as journals: what Load of index/index.go makes of the file is the
-- index in memory.
use timeq.Base.{
  ℕ, ◌<◌, ◌≡◌, refl, sym, ◌∙◌, ap, subst, false, List, [], ◌∷◌, ◌++◌, map, none, length, arith, All,
  All-append, Run, ok, panic, out_of_fuel, ◌>>=◌, ◌==◌,
}
use mathlib.Core.List.{append_assoc, append-nil}
use timeq.Item.{Location}
use timeq.Btree.{OrderedMap}
use timeq.Index.{Index, Trailer, empty, set, trailer}
use timeq.Index.Codec.{
  WriteAnswer, written, short_write, write_failed, location_size, record_of, apply, load, Writer,
  FileError,
}
use timeq.Index.Codec
use timeq.Index.Codec.Records.{IsStorable}
use timeq.Index.Codec.Replay.{log_of, tail_error, replay, load-replay}
use timeq.Bucket.{BucketIndex, ForkName, add_loc, add_to_all}

log_of-append : (rs ss : List (Location × Trailer)) → log_of (rs ++ ss) ≡ log_of rs ++ log_of ss
log_of-append [] ss = refl
log_of-append ((loc, t) ∷ rs) ss =
    ap (λ b. record_of loc t ++ b) (log_of-append rs ss)
    ∙ sym (append_assoc (record_of loc t) (log_of rs) (log_of ss))

module _ (M : OrderedMap (List Location)) where
  replay-append :
      (rs ss : List (Location × Trailer)) (i : Index M)
      → replay M i (rs ++ ss) ≡ (replay M i rs >>= λ i'. replay M i' ss)
  replay-append [] ss i = refl
  replay-append ((loc, t) ∷ rs) ss i = afterwards (λ i'. replay-append rs ss i') (apply M i loc)
    where
      afterwards :
          ((i' : Index M) → replay M i' (rs ++ ss) ≡ (replay M i' rs >>= λ i''. replay M i'' ss))
          → (o : Run (Index M))
          → (o >>= λ i'. replay M i' (rs ++ ss))
            ≡ ((o >>= λ i'. replay M i' rs) >>= λ i'. replay M i' ss)
      afterwards later (ok i') = later i'
      afterwards later panic = refl
      afterwards later out_of_fuel = refl

  -- The file of the index log holds records that, replayed, make the index in memory.
  pub record IsJournaled (idx : BucketIndex M) : Type 0 where
    pub records : List (Location × Trailer)
    pub shape : idx.log.file ≡ log_of records
    pub storable : All (λ r. IsStorable r.0) records
    pub replayed : replay M (empty M) records ≡ ok idx.mem

  abbrev pub AllJournaled : List (ForkName × BucketIndex M) → Type 0
  AllJournaled indexes = All (λ (e : ForkName × BucketIndex M). IsJournaled e.1) indexes

  -- A record whose effect was made in memory.
  pub journal_step :
      (idx : BucketIndex M) (loc : Location) (t : Trailer) (mem : Index M)
      → IsJournaled idx
      → IsStorable loc
      → apply M idx.mem loc ≡ ok mem
      → IsJournaled
          (record { log = record idx.log { file = idx.log.file ++ record_of loc t }; mem = mem })
  journal_step idx loc t mem j s e = record {
    records = j.records ++ ((loc, t) ∷ []);
    shape =
        ap (λ f. f ++ record_of loc t) j.shape
        ∙ ap (λ b. log_of j.records ++ b) (sym (append-nil (record_of loc t)))
        ∙ sym (log_of-append j.records ((loc, t) ∷ []));
    storable = All-append (λ r. IsStorable r.0) j.records ((loc, t) ∷ []) j.storable (s, tt);
    replayed = replay-append j.records ((loc, t) ∷ []) (empty M) ∙ rw (j.replayed, ◌>>=◌, e);
  }

  pub load-IsJournaled :
      (idx : BucketIndex M) (torn : List ℕ)
      → IsJournaled idx
      → length torn < location_size
      → load M (idx.log.file ++ torn) ≡ ok (idx.mem, tail_error torn)
  load-IsJournaled idx torn j h =
      ap (λ f. load M (f ++ torn)) j.shape
      ∙ load-replay M j.records torn j.storable h
      ∙ rw j.replayed

  apply-set : (i : Index M) (loc : Location) → 0 < loc.len → apply M i loc ≡ ok (set M i loc)
  unfolding apply
  apply-set i loc h = let kept : (loc.len == 0) ≡ false = ground (arith, h) in rw kept

  -- A location that is set in memory and pushed to the log.
  pub add_loc-IsJournaled :
      (idx : BucketIndex M) (loc : Location)
      → IsJournaled idx
      → IsStorable loc
      → 0 < loc.len
      → IsJournaled (add_loc M idx loc written).0
  unfolding add_loc Codec.push
  add_loc-IsJournaled idx loc j s h =
      journal_step idx loc (trailer M (set M idx.mem loc)) (set M idx.mem loc) j s
        (apply-set idx.mem loc h)

  -- When every write succeeds, the loop over the forks sets the location in each of them.
  pub add_to_all-map :
      (indexes : List (ForkName × BucketIndex M)) (loc : Location) (os : ForkName → WriteAnswer)
      → ((name : ForkName) → os name ≡ written)
      → add_to_all M indexes loc os
        ≡ (map (λ e. (e.0, (add_loc M e.1 loc written).0)) indexes, none)
  unfolding add_to_all add_loc Codec.push
  add_to_all-map [] loc os h = refl
  add_to_all-map ((name, idx) ∷ rest) loc os h = rw (h name, add_to_all-map rest loc os h)

  pub map-IsJournaled :
      (indexes : List (ForkName × BucketIndex M)) (loc : Location)
      → AllJournaled indexes
      → IsStorable loc
      → 0 < loc.len
      → AllJournaled (map (λ e. (e.0, (add_loc M e.1 loc written).0)) indexes)
  map-IsJournaled [] loc j s h = tt
  map-IsJournaled ((name, idx) ∷ rest) loc j s h =
      (add_loc-IsJournaled idx loc j.0 s h, map-IsJournaled rest loc j.1 s h)

  -- The loop of Push over all forks keeps every index log a journal of its memory.
  pub add_to_all-IsJournaled :
      (indexes : List (ForkName × BucketIndex M)) (loc : Location) (os : ForkName → WriteAnswer)
      → ((name : ForkName) → os name ≡ written)
      → AllJournaled indexes
      → IsStorable loc
      → 0 < loc.len
      → AllJournaled (add_to_all M indexes loc os).0
  add_to_all-IsJournaled indexes loc os w j s h =
      subst (λ r. AllJournaled r.0) (sym (add_to_all-map indexes loc os w))
        (map-IsJournaled indexes loc j s h)
