-- ===== src/Tests/Merges.antt =====
-- peek on two batches whose keys overlap.
use timeq.Base.{ℕ, ◌≡◌, refl, [], ◌∷◌, ◌++◌, map, ◌<◌, ◌^◌, arith, ok}
use timeq.Base.Bytes.{zeros, big_endian}
use timeq.Btree.{lookup, insert}
use timeq.Vlog.Entry.{encode_all, IsStorable}
use timeq.Index.{set}
use timeq.Index.Locations.{IsValid, locations}
use timeq.Bucket.Peek.{Peeked, peek}
use timeq.Bucket.Merge.{Batch, IsBacked, all_items}
use timeq.Bucket.Merge.Lowest.{HasLowest, peek-HasLowest}
use timeq.Tests.Indexes.{Locs}
use timeq.Tests.BucketTests.{keyed}
use timeq.Tests.Runs.{overlapping, two_batches}

abbrev pub first_batch : Batch
first_batch = (record { key = 1; off = 0; len = 2 }, keyed 1 ∷ keyed 5 ∷ [])

abbrev pub second_batch : Batch
second_batch = (record { key = 3; off = 28; len = 2 }, keyed 3 ∷ keyed 7 ∷ [])

pub overlapping-IsValid : IsValid Locs overlapping
unfolding set lookup insert
overlapping-IsValid = record {
  ascending = ((omega arith, tt), (tt, tt));
  grouped = ((omega arith, (refl, tt)), ((omega arith, (refl, tt)), tt));
  counted = refl;
}

pub listed : map (λ (b : Batch). b.0) (first_batch ∷ second_batch ∷ []) ≡ locations Locs overlapping
unfolding set lookup insert
listed = refl

pub keyed-IsStorable : (key : ℕ) → key < 2 ^ 64 → IsStorable (keyed key)
keyed-IsStorable key h = record { key_bound = h; blob_bound = omega arith }

pub first_batch-IsBacked : IsBacked two_batches.log first_batch
unfolding big_endian
first_batch-IsBacked = record {
  batch = record {
    front = [];
    back = encode_all (keyed 3 ∷ keyed 7 ∷ []) ++ zeros 8;
    shape = refl;
    offset = refl;
    inside = omega arith;
    small = omega arith;
    storable = (keyed-IsStorable 1 (omega arith), (keyed-IsStorable 5 (omega arith), tt));
  };
  counted = refl;
  few = omega arith;
  ordered = ((omega arith, tt), (tt, tt));
  headed = refl;
}

pub second_batch-IsBacked : IsBacked two_batches.log second_batch
unfolding big_endian
second_batch-IsBacked = record {
  batch = record {
    front = encode_all (keyed 1 ∷ keyed 5 ∷ []);
    back = zeros 8;
    shape = refl;
    offset = refl;
    inside = omega arith;
    small = omega arith;
    storable = (keyed-IsStorable 3 (omega arith), (keyed-IsStorable 7 (omega arith), tt));
  };
  counted = refl;
  few = omega arith;
  ordered = ((omega arith, tt), (tt, tt));
  headed = refl;
}

peek-HasLowest_example :
    (p : Peeked Locs) × (peek Locs two_batches 3 [] overlapping ≡ ok p)
    × HasLowest Locs two_batches 3 (all_items (first_batch ∷ second_batch ∷ [])) p
peek-HasLowest_example =
    peek-HasLowest Locs two_batches overlapping 3 (first_batch ∷ second_batch ∷ [])
      overlapping-IsValid listed (first_batch-IsBacked, (second_batch-IsBacked, tt))
