-- ===== src/Tests.antt =====
-- Concrete servers, polls and repositories, and the theorems at concrete inputs.
pub mod Hash
pub mod Server
pub mod Samples
pub mod Entity
pub mod Cache
pub mod Votes
pub mod Service
pub mod Tables
pub mod Cycle
pub mod Results
pub mod Polls
pub mod PollCache
pub mod Config
pub mod Repository
pub mod Http
