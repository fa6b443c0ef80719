-- ===== src/VoteStore/Keys.antt =====
-- Key names of the vote store (internal/votestore/redis.go).
use Prim.Native.String.{◌++◌ as ◌<>◌}
use voting_service.Base.{ℕ, ◌%◌, ◌^◌, String, decimal}

abbrev pub tracked_polls_key : String
tracked_polls_key = "votes:polls"

-- `tagForShard`.
unfoldable pub tag_for_shard : String → ℕ → String
tag_for_shard poll_id shard = "{v:" <> (poll_id <> (":" <> (decimal shard <> "}")))

-- `shardTag`'s choice of a shard; CRC-32 is a parameter.
abbrev pub shard_of : (String → ℕ) → ℕ → String → ℕ
shard_of checksum shards voter_hash = checksum voter_hash % (shards % 2 ^ 32)

unfoldable pub counts_key : String → ℕ → String
counts_key poll_id shard = tag_for_shard poll_id shard <> ":counts"

unfoldable pub voted_key : String → ℕ → String → String
voted_key poll_id shard voter_hash = tag_for_shard poll_id shard <> (":voted:" <> voter_hash)

unfoldable pub rate_key : String → String
rate_key client_ip = ("{ip:" <> (client_ip <> "}")) <> ":rl"

unfoldable pub quota_key : String → String → String
quota_key client_ip poll_id = ("{ip:" <> (client_ip <> "}")) <> (":pq:" <> poll_id)
