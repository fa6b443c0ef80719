-- ===== src/Lib.antt =====
-- A model of the voting service, a Go program that runs polls: administrators create and open them,
-- anonymous voters cast ballots, and results are read live.
--
-- The parts and how they interact. A ballot goes through `VoteService` (internal/service/vote.go),
-- which loads the poll through the poll cache (internal/pollcache, over internal/ttlcache), checks it
-- by the rules of internal/entity, and asks the vote store (internal/votestore): a Lua script limits
-- the rate per address, another claims the dedup slot of the voter and counts the ballot's options
-- in one step of Redis. `SyncService` (internal/service/sync.go), run as a job
-- (internal/syncjob/job.go), copies the counters to PostgreSQL. `PollService`
-- (internal/service/poll.go) creates polls, moves them through their life, and merges the durable
-- with the live counts. The services know each other's infrastructure through the ports of
-- internal/usecase/ports.go.
--
-- Files. `Base`: names that all modules share, texts, decimal numerals, signed integers. `Entity`:
-- internal/entity, errors in `Errors`, polls and their checks in `Poll`, what the checks accept in
-- `Ballot` and `Window`. `Ports`: internal/usecase/ports.go, each interface a record of state passing
-- operations (`Action W A` is `W → Result A × W`; a do block is a chain of `if err != nil` returns).
-- `TtlCache`: internal/ttlcache, one shard in `Shard` (`get`, `set`, `delete` are Get, Set and
-- Delete), the sixteen in `Sharded`, the list of entries that a shard stands for in `Ideal`.
-- `Redis`: the server and its client. `VoteStore`: internal/votestore, key names in `Keys`, the two
-- Lua scripts in `Scripts`, the methods in `Store`. `VoteService`: internal/service/vote.go, `Cast`
-- and `VoterHash` in `Cast`, the laws that it expects of a vote store in `Contract`. `PollCache`:
-- internal/pollcache, `Cache` and its Redis tier in `Shared`. `PollService`:
-- internal/service/poll.go, `buildPoll` in `Build`, the methods in `Polls`. `SyncService`:
-- internal/service/sync.go and internal/syncjob/job.go in `Sync`, the laws that it expects of its
-- ports in `Durable`, the Redis store and the repository side by side in `Stores`. `Config`: internal/config/config.go, the readers of variables in `Loader`, the
-- sections in `Sections`, `Load` in `Load`. `Repository`: internal/repository/poll.go, the tables and
-- their constraints in `Tables`, the SQL statements in `Queries`, transactions in `Poll`, the other
-- methods in `Calls`; what a sequence of calls does in `History`. `HttpJson`: internal/httpjson.
-- `Middleware`: internal/middleware, identity in `Identity`, the handlers around handlers in `Chain`,
-- the recorder of the access log in `Recorder`. `Controller`: internal/controller, requests and
-- responses in `Dto`, `Handlers` and `Probes`, and `NewRouter` in `Router`. `Health`: internal/health/health.go.
-- `Tests`: a Redis server and runs at concrete inputs.
--
-- Numbers. A time is a number of nanoseconds since Go's zero time; a lifetime, a size of a page and
-- other values of `int` that can be negative are signed integers. A count in `int64` wraps around
-- (`add_int64`). Every loop is structural recursion over its list or over the number of shards, so
-- no fuel is needed.
--
-- Parameters. The commands of Redis are a record, with their documented behaviour as laws for keys
-- of one type each, with the errors of SET at a lifetime of 0 and of HINCRBY at the end of 64 bits;
-- keys do not expire in the laws, so a statement about dedup slots is one about the time until a
-- slot expires. A round trip may lose its request or its reply. net/http takes a status from 100 to
-- 199 as informational. `uuid.Validate`, `uuid.NewString`, SHA-256, CRC-32 and the seeded hash of the
-- runtime are arguments. A call, and a whole cycle of the synchroniser, reads the
-- clock once; locks and `singleflight` are the exclusion of
-- calls.
--
-- The SQL of the repository is translated to operations on lists of rows with the constraints of
-- migrations/000001_initial.up.sql. PostgreSQL reads a uuid from several spellings: how it does is an
-- argument that gives the canonical text. Times are kept in microseconds. One transaction is open at
-- a time, a statement runs alone, and a connection that loses a round trip loses its transaction. A
-- handler is a function of the request and of the response so far. chi's match of a path,
-- encoding/json, base64, `net/netip`, `time.ParseDuration`, the text of a cookie, floating point and
-- what `crypto/rand` draws are arguments.
--
-- Not modelled: panics and `Recover`, deadlines (`Timeout`, the job's and the probes'), log lines,
-- text that is not valid for PostgreSQL (a NUL character), paths under
-- `/api/v1/admin` without a route, the construction of clients and the wiring of the two commands
-- (internal/clients, cmd/api, cmd/worker), which are calls of libraries.
pub mod Base
pub mod Entity
pub mod TtlCache
pub mod Ports
pub mod Redis
pub mod VoteStore
pub mod VoteService
pub mod Config
pub mod Repository
pub mod HttpJson
pub mod Middleware
pub mod Controller
pub mod Health
pub mod PollCache
pub mod PollService
pub mod SyncService
pub mod Tests
