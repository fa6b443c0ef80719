-- ===== src/PollService.antt =====
-- The poll service (internal/service/poll.go): new polls in `Build` and what they are like in
-- `Built`, the methods in `Polls`, and results and pages in `Merge`.
pub mod Build
pub mod Polls
pub mod Merge
pub mod Built
