-- ===== src/Bucket/PushErrors.antt =====
-- Push of bucket.go when the value log refuses the items.
use timeq.Base.{◌≡◌, List, Option, some}
use timeq.Item.{Item, Location}
use timeq.Btree.{OrderedMap}
use timeq.Vlog.{LogError}
use timeq.Vlog
use timeq.Bucket.{Bucket, BucketError, log_error}

module _ (M : OrderedMap (List Location)) (b : Bucket M) where
  -- An error of the value log leaves every index as it was.
  abbrev Untouched : Bucket M × Option BucketError → Type 0
  Untouched (b', r) = (e : LogError) → r ≡ some (log_error e) → b'.indexes ≡ b.indexes
