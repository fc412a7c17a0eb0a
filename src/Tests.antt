-- ===== src/Tests.antt =====
-- Runs of the code on small inputs.
pub mod Log
mod Items
pub mod Indexes
mod BucketTests
mod Runs
mod Merges
mod Queues
mod Apis
pub mod Reopens
pub mod Trees
mod Listings
mod Forks
