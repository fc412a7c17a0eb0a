-- ===== src/Tests/Forks.antt =====
-- A queue is forked while one of its three buckets is not loaded, and an emptied fork is opened again.
use timeq.Base.{ℕ, ◌≡◌, refl, true, List, [], ◌∷◌, ok, ◌>>=◌, Option, Run, ◌⊎◌, inl, inr}
use timeq.Base.Bytes.{big_endian, slice, slice_from, read_be, be_value}
use timeq.Item.{storage_size}
use timeq.Vlog.{read_item_at}
use timeq.Vlog.Iter.{at}
use timeq.Vlog.Iter
use timeq.Btree.{insert, lookup}
use timeq.Index.{
  empty, from_vlog, scan_loop, scan_item, finish_scan, copy, loc_iter, next_loc, value, set,
}
use timeq.Index.Codec.{
  written, Writer, FileError, load, load_loop, next, write_index, write_loop, push, after_push,
}
use timeq.Bucket.Open.{OpenError, load_index, recover_index, rewrite_index}
use timeq.Bucket.{BucketIndex, find_index, name_eq}
use timeq.Bucket.Forks.{fork, add_fork, len, trailers}
use timeq.Buckets.Tree.{Buckets, TreeError, close_bucket, fork_len, get_trailer, contains}
use timeq.Buckets.Tree.Iter.{iter, iter_keys, visit_key, visit_nil}
use timeq.Buckets.Tree.Forking.{fork_all, fork_entry, fork_offline}
use timeq.Tests.Indexes.{Locs}
use timeq.Tests.Reopens.{index_opens}
use timeq.Tests.Runs.{two_batches}
use timeq.Tests.Trees.{Slots, one_closed, at_ease, options}

abbrev lens : Run (Buckets Locs Slots × Option TreeError) → Run (ℕ × ℕ)
lens r = r >>= λ (s, e). ok (fork_len Locs Slots s [], fork_len Locs Slots s (103 ∷ []))

-- The fork has six items as the queue has, and its Len counts those of the loaded buckets.
fork_len_misses :
    lens (
      fork_all Locs Slots at_ease options []
        (103 ∷ [])
        true
        (λ key n. written)
        (λ key. true)
        one_closed)
    ≡ ok (6, 4)
unfolding fork_all fork_entry fork_offline iter iter_keys visit_key visit_nil insert lookup fork
    add_fork len trailers fork_len get_trailer contains find_index name_eq copy loc_iter next_loc
    value set write_index write_loop push after_push close_bucket
fork_len_misses = refl

abbrev items_in : BucketIndex Locs ⊎ OpenError → ℕ
items_in (inl idx) = idx.mem.len
items_in (inr e) = 0

abbrev file_of : Writer × Option FileError → List ℕ
file_of (w, e) = w.file

-- The index file of an emptied fork has no bytes, and openBucket makes an index of all four items
-- of the value log of it.
emptied_fork_returns :
    (write_index Locs (empty Locs) [] 1 (λ n. written) >>= λ w.
    load_index Locs 5 two_batches.log (file_of w) true index_opens >>= λ r. ok (items_in r))
    ≡ ok 4
unfolding write_index write_loop next_loc loc_iter load_index recover_index rewrite_index load
    load_loop next from_vlog scan_loop scan_item finish_scan Iter.next at read_item_at big_endian
    slice slice_from read_be be_value storage_size set insert lookup push after_push value
emptied_fork_returns = refl
