-- ===== src/TtlCache.antt =====
-- The bounded in-process cache (internal/ttlcache/ttlcache.go): a shard in `Shard`, its meaning as a
-- list of entries in `Ideal`, the invariant in `Coherent`, the refinement in `Refines`, the
-- cache over sixteen shards in `Sharded`, and its size and its reads in `Bounds` and `Deleted`.
pub mod Shard
pub mod Ideal
pub mod Coherent
pub mod Refines
pub mod Sharded
pub mod Bounds
pub mod Deleted
