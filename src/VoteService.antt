-- ===== src/VoteService.antt =====
-- The vote use case (internal/service/vote.go): `Cast` and `VoterHash` in `Cast`, which ballots are
-- accepted in `Accepted`, the contract with the vote store in `Contract` and what a vote does to the
-- counts in `Counted`.
pub mod Cast
pub mod Accepted
pub mod Hash
pub mod Contract
pub mod Counted
