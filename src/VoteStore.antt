-- ===== src/VoteStore.antt =====
-- The Redis vote store (internal/votestore): the Lua scripts in `Scripts`, the methods of `Store` in
-- `Store`, key names in `Keys`, and what the guard, the ballots and the counters do.
pub mod Keys
pub mod Scripts
pub mod Store
pub mod Names
pub mod Guard
pub mod Ballots
pub mod Votes
pub mod Once
pub mod Replies
pub mod Counters
