-- ===== src/Bucket/PushJournal.antt =====
-- Push of bucket.go to all forks: the value log, the indexes in memory and their logs together.
use timeq.Base.{List, map}
use timeq.Item.{Item, Location}
use timeq.Btree.{OrderedMap}
use timeq.Vlog.Entry
use timeq.Index.Codec.{written}
use timeq.Bucket.{Bucket, add_loc}

module _ (M : OrderedMap (List Location)) where
  -- Each index with the location set in memory and recorded in its log.
  abbrev pub with_batch : Bucket M → Location → Bucket M
  with_batch b loc = record b {
    indexes = map (λ e. (e.0, (add_loc M e.1 loc written).0)) b.indexes;
  }
