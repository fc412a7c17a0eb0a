-- ===== src/Bucket/Queue/Pushes.antt =====
-- Push of bucket.go on the forks of a bucket as priority queues.
use mathlib.Core.List.{Perm}
use mathlib.Core.List.Perm
use timeq.Base.{ℕ, ◌+◌, ◌*◌, ◌^◌, ◌<◌, ◌≡◌, List, ◌∷◌, length, All}
use timeq.Item.{Item, Location}
use timeq.Item.Order.{Ordered}
use timeq.Item.Sizes.{batch_size}
use timeq.Btree.{OrderedMap, IsOrderedMap}
use timeq.Vlog.{PushAnswers}
use timeq.Vlog
use timeq.Vlog.Entry.{Holds}
use timeq.Vlog.Entry
use timeq.Vlog.Push.{Succeeds}
use timeq.Vlog.RoundTrip.{batch_location}
use timeq.Index.Codec.{WriteAnswer, written}
use timeq.Index.Codec
use timeq.Index.Codec.Records.{IsStorable}
use timeq.Bucket.{Bucket, ForkName}
use timeq.Bucket.Merge.{Batch}

module _ (M : OrderedMap (List Location)) (laws : IsOrderedMap M) (p : ℕ) (b : Bucket M) (it : Item)
    (items : List Item) (ls : PushAnswers) (os : ForkName → WriteAnswer) (used : List ℕ) (n : ℕ)
    (hp : 0 < p) (h : Holds b.log used n)
    (fits : b.log.size + batch_size (it ∷ items) + 128 * p < 2 ^ 63)
    (small : length b.log.mmap < 2 ^ 63) (yes_ls : Succeeds ls)
    (yes_os : (fork : ForkName) → os fork ≡ written) (st : All Entry.IsStorable (it ∷ items))
    (few : length (it ∷ items) < 2 ^ 32) (sorted : Ordered (it ∷ items)) where
  abbrev loc : Location
  loc = batch_location b.log it items
