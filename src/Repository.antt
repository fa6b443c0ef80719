-- ===== src/Repository.antt =====
-- The repository of polls (internal/repository/poll.go): the tables in `Tables`, the SQL statements
-- in `Queries`, transactions in `Poll`, the other methods in `Calls`. What inserts add is in `Rows`,
-- creating a poll in `Atomic`, `Create` and, read back, in `RoundTrip` and `Created`, the life of a
-- poll in `Lifecycle` and `History` by way of `Statements` and `Kept`, saved results in `Saved`,
-- `Bounded` and `Persisted`, and an answer of `GetPoll` in `Loaded`.
pub mod Tables
pub mod Queries
pub mod Poll
pub mod Calls
pub mod Rows
pub mod Atomic
pub mod Create
pub mod Lifecycle
pub mod Statements
pub mod Saved
pub mod Bounded
pub mod Persisted
pub mod Loaded
pub mod Kept
pub mod History
pub mod RoundTrip
pub mod Created
