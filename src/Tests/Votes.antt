-- ===== src/Tests/Votes.antt =====
-- The vote store on the server of the examples (internal/votestore).
use voting_service.Base.{◌+◌, ◌≡◌, ◌≤◌, refl, [], ◌∷◌, arith, if◌then◌else◌, ltb, str_eq}
use voting_service.Entity.Errors.{ok, err, new_error, foreign, already_voted}
use voting_service.Ports.{Counts, verdict_allow, verdict_rate_limited}
use voting_service.Redis.{Net, reply_lost, up}
use voting_service.VoteStore.Store.{guard, cast_ballot, counters}
use voting_service.VoteStore.Guard.{verdict_at, guard-verdict, guards, guard-guards}
use voting_service.VoteStore.Ballots.{tally, occurs}
use voting_service.VoteStore.Votes.{slot, cast_ballot-slot, cast_ballot-tally}
use voting_service.VoteStore.Once.{casts, casts-tally-le}
use voting_service.VoteStore.Replies.{Holds}
use voting_service.VoteStore.Counters.{counters-tally}
use voting_service.Tests.Server.{server, server-RedisLaws, empty_keys}
use voting_service.Tests.Samples.{two_shards, checksum_of, soup_and_rice, knock}

abbrev online : Net server
online = record { db = empty_keys; links = [] }

abbrev voted_once : Net server
voted_once = (cast_ballot server checksum_of two_shards soup_and_rice online).1

guard-verdict_example :
    (guard server checksum_of two_shards knock online).0
    ≡ ok (verdict_at server server-RedisLaws checksum_of two_shards knock empty_keys)
guard-verdict_example =
    guard-verdict server server-RedisLaws checksum_of two_shards knock online tt (omega arith)

guard-guards_example :
    (guard server checksum_of two_shards knock (record {
      db =
          guards server server-RedisLaws checksum_of two_shards "10.0.0.1"
            ("p3" ∷ "p1" ∷ "p2" ∷ [])
            empty_keys;
      links = [];
    })).0
    ≡ ok (if ltb 3 3 then verdict_allow else verdict_rate_limited)
guard-guards_example =
    guard-guards server server-RedisLaws checksum_of two_shards ("p3" ∷ "p1" ∷ "p2" ∷ []) knock
      empty_keys (omega arith) refl (omega arith) (omega arith) refl

cast_ballot-slot_example : (cast_ballot server checksum_of two_shards soup_and_rice online).0 ≡ (
    if server.exists (slot checksum_of two_shards soup_and_rice) empty_keys
    then err (new_error already_voted "this device has already voted in this poll")
    else ok tt)
cast_ballot-slot_example =
    cast_ballot-slot server server-RedisLaws checksum_of two_shards soup_and_rice online tt
      (omega arith) (omega arith) (omega arith) (λ k f. omega arith)

cast_ballot-tally_example :
    tally server 2 "p1" "a" (cast_ballot server checksum_of two_shards soup_and_rice online).1.db
    ≡ (if server.exists (slot checksum_of two_shards soup_and_rice) empty_keys
        then tally server 2 "p1" "a" empty_keys
        else tally server 2 "p1" "a" empty_keys + occurs "a" ("a" ∷ "b" ∷ []))
cast_ballot-tally_example =
    cast_ballot-tally server server-RedisLaws checksum_of two_shards soup_and_rice "a" online tt
      (omega arith) (omega arith) (omega arith) (omega arith) (λ k f. omega arith)

-- The reply of the first ballot is lost, and the voter tries again with another one.
abbrev flaky : Net server
flaky = record { db = empty_keys; links = reply_lost (foreign "i/o timeout") ∷ up ∷ [] }

casts-tally-le_example :
    tally server 2 "p1" "a"
      (casts server checksum_of two_shards "p1" "h" (("a" ∷ []) ∷ ("a" ∷ []) ∷ []) flaky).db
    ≤ tally server 2 "p1" "a" empty_keys + 1
unfolding str_eq
casts-tally-le_example =
    casts-tally-le server server-RedisLaws checksum_of two_shards "p1" "h" "a" 1
      (("a" ∷ []) ∷ ("a" ∷ []) ∷ []) flaky
      (omega arith, omega arith, (omega arith, omega arith, tt)) (λ k f. omega arith) (omega arith)
      (omega arith) (omega arith) (omega arith)

counters-tally_example :
    (c : Counts) × ((counters server checksum_of two_shards "p1" ("a" ∷ "b" ∷ []) online).0 ≡ ok c)
    × Holds ("a" ∷ "b" ∷ []) (λ o. tally server 2 "p1" o empty_keys) c
counters-tally_example =
    counters-tally server server-RedisLaws checksum_of two_shards "p1" ("a" ∷ "b" ∷ []) online tt
      (λ o. omega arith)
