-- ===== src/PollCache.antt =====
-- The two-tier cache of polls (internal/pollcache): its methods in `Cache`, its shared tier on Redis
-- in `Shared`, and how long an entry answers in `Fresh`.
pub mod Cache
pub mod Shared
pub mod Fresh
