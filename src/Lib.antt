-- ===== src/Lib.antt =====
-- timeq, a persistent priority queue: items with a 64-bit key and a payload, read in the order of
-- their keys.
--
-- A queue is a tree of buckets (buckets.go), each for an interval of keys. A bucket (bucket.go) is
-- a directory with one value log (vlog/vlog.go) and, for each fork of the queue, an index. A push
-- appends the sorted items of a bucket as one batch to the value log, and the location of the batch
-- to each index: to the ordered map in memory (index/index.go) and to the index log
-- (index/writer.go). A read opens an iterator (vlog/iter.go) for each batch that can hold a next
-- item, keeps the iterators in a heap (vlog/heap.go), and takes items off the lowest. What it read
-- is removed by new records of the index log. Load (index/index.go, index/reader.go) replays an
-- index log.
--
-- Files:
--   Base      lists, bytes, machine words and outcomes that all parts share
--   Item      item/item.go: Item, Location, StorageSize and Copy; Keys is the text form of keys
--   Vlog      vlog/vlog.go: Log, Open, Push, readItemAt, findNextItem, Sync; its children
--             Vlog/Iter (vlog/iter.go: Next) and Vlog/Heap (vlog/heap.go: Push, Fix)
--   Btree     what the code relies on of btree.Map, a third-party ordered map: a parameter M with
--             the laws IsOrderedMap, which a list of pairs meets
--   Index     index/index.go: Set, Delete, Iter, FromVlog; its child Index/Codec (index/writer.go,
--             index/reader.go: Writer.Push, Reader.Next, ReadTrailer, WriteIndex, and Load)
--   Bucket    bucket.go: Push; its children Peek (addIter, peek), Pop (popSync, Read), Delete,
--             Forks (Fork, RemoveFork, Len, AllEmpty, Empty, Trailers), Open (openBucket, loadIndex,
--             recoverIndexFromLog) and Names (idxPath, ReadTrailers, ForkName.Validate of api.go);
--             Merge takes peek as a merge of batches, Journal, PushJournal, PopJournal, PopRests,
--             PushErrors and Copies relate the index in memory and its log, and Queue takes a fork
--             as a priority queue: the items that its index leads to in the value log, whatever the
--             batches are that hold them (IsQueue, a truncation, which forgets the batches)
--   Buckets   buckets.go: binsplit and pushSorted over an interface for the tree of buckets; its
--             child Tree is that tree (forKey, closeUnused, Len), with Tree/Deleting (delete, Clear),
--             Tree/Iter (iter, Sync, Close, Read, and in Ranges Delete and Push) and Tree/Forking
--             (loadAllBuckets, fetchForks, Fork, RemoveFork, ValidateBucketKeys)
--   Api       api.go: Open, PopCopy, PeekCopy, and the methods of Queue and Fork; its children take a
--             queue of several buckets as one priority queue, bucket after bucket
--   Options   options.go: modes, split functions, Validate
--   Tests     runs on small inputs
-- The other files prove properties of their parent.
--
-- State is passed on explicitly: an operation takes a record and returns the new one, with the Go
-- error as a value. A run-time panic is the outcome `panic` of Run. What a system call, a write or a
-- callback answers is an argument of the operation that makes the call. An int64 is its bit pattern,
-- a number below 2 ^ 64, compared by `rank`; uint64 arithmetic wraps around.
--
-- A directory is the bytes of its log and, for each fork, of its index log if it is there; that of a
-- loaded bucket is brought up to date when the bucket is closed.
--
-- Fuel: Next gives its loop size + 1 rounds, since each search for the next entry moves forward;
-- up and down get one round more than the heap has entries; Load one more than the file has bytes;
-- FromVlog one more than the log has bytes; binsplit and pushSorted one more than there are items.
-- WriteIndex and Delete take the number of rounds as an argument, one more than the index has
-- locations. openBucket calls itself at most once for each list of answers that it is given.
--
-- Not modelled: the paths of files, what a failed call leaves of files, the state that a recovered
-- panic leaves, locks, loggers, the aliasing of slices between an index and its copy, pushes from
-- within the callback of Read, and Shovel, which moves directories. The command line and the file
-- helpers are left out. Push, Sync, Clear and Close of a Queue only call the operation of the buckets.
pub mod Api
pub mod Base
pub mod Item
pub mod Vlog
pub mod Btree
pub mod Index
pub mod Bucket
pub mod Buckets
pub mod Tests
pub mod Options
