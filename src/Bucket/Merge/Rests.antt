-- ===== src/Bucket/Merge/Rests.antt =====
-- What is left of the iterators of peek (bucket.go), as batches that lie in the log.
use mathlib.Core.List.{append-nil, map-append}
use timeq.Base.{
  Bool, All-append, ◌<◌, ◌^◌, ◌≡◌, refl, ◌∙◌, true, false, List, [], ◌∷◌, ◌++◌, map, arith, All,
  if◌then◌else◌,
}
use timeq.Base.Perms.{gather, gather-append}
use timeq.Vlog.{Log}
use timeq.Vlog.Iter.{Iter, current_location}
use timeq.Vlog.Iter.Ahead.{left, later, IsGood}
use timeq.Bucket.Merge.{Batch, IsBacked, all_items, all_left}
use timeq.Bucket.PopJournal.{IsPoppable}
use timeq.Bucket.PopRests.{all_current}

module _ (l : Log) where
  abbrev rest_batch : Iter → List Batch
  rest_batch li = if li.exhausted then [] else (current_location li, li.item ∷ later l li) ∷ []

  abbrev pub rest_batches : List Iter → List Batch
  rest_batches iters = gather rest_batch iters

  rest-IsBacked :
      (li : Iter)
      → IsGood l li
      → li.exhausted ≡ false
      → IsBacked l (current_location li, li.item ∷ later l li)
  unfolding current_location
  rest-IsBacked li g live =
      let a = g.ahead live in
      record {
        batch = a.behind;
        counted = a.behind_len;
        few = a.few;
        ordered = a.ordered;
        headed = refl;
      }

  module _ (li : Iter) where
    unless_IsBacked :
        (t : Bool)
        → (t ≡ false → IsBacked l (current_location li, li.item ∷ later l li))
        → All (IsBacked l) (if t then [] else (current_location li, li.item ∷ later l li) ∷ [])
    unless_IsBacked true h = tt
    unless_IsBacked false h = (h refl, tt)

    unless_map :
        (t : Bool)
        → map
            (λ (b : Batch). b.0)
            (if t then [] else (current_location li, li.item ∷ later l li) ∷ [])
          ≡ (if t then [] else current_location li ∷ [])
    unless_map true = refl
    unless_map false = refl

    unless_items :
        (t : Bool)
        → all_items (if t then [] else (current_location li, li.item ∷ later l li) ∷ [])
          ≡ (if t then [] else li.item ∷ later l li)
    unless_items true = refl
    unless_items false = append-nil (li.item ∷ later l li)

  pub rest_batches-IsBacked :
      (iters : List Iter) → All (IsGood l) iters → All (IsBacked l) (rest_batches iters)
  rest_batches-IsBacked [] g = tt
  rest_batches-IsBacked (li ∷ iters) g =
      All-append (IsBacked l) (rest_batch li) (rest_batches iters)
        (unless_IsBacked li li.exhausted (rest-IsBacked li g.0)) (rest_batches-IsBacked iters g.1)

  pub map-rest_batches :
      (iters : List Iter) → map (λ (b : Batch). b.0) (rest_batches iters) ≡ all_current iters
  map-rest_batches [] = refl
  map-rest_batches (li ∷ iters) =
      map-append (λ (b : Batch). b.0) (rest_batch li) (rest_batches iters)
      ∙ (λ i. unless_map li li.exhausted i ++ map-rest_batches iters i)

  pub all_items-rest_batches :
      (iters : List Iter) → all_items (rest_batches iters) ≡ all_left l iters
  unfolding left
  all_items-rest_batches [] = refl
  all_items-rest_batches (li ∷ iters) =
      gather-append (λ (b : Batch). b.1) (rest_batch li) (rest_batches iters)
      ∙ (λ i. unless_items li li.exhausted i ++ all_items-rest_batches iters i)

  -- The keys and what is left of the batches fit records.
  pub good-IsPoppable : (li : Iter) → li.first_key < 2 ^ 64 → IsGood l li → IsPoppable li
  unfolding current_location
  good-IsPoppable li h g = record {
    key_bound = h;
    left = λ live.
        let a = g.ahead live in
        (
          record {
            key_bound = a.behind.storable.0.key_bound;
            off_bound = omega (arith, a.behind.offset, a.behind.inside, a.behind.small);
            len_bound = omega (arith, a.behind_len, a.few);
          },
          omega (arith, a.behind_len),
        );
  }
