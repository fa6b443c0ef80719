-- ===== src/Tests/Service.antt =====
-- The vote service over the Redis store on the server of the examples (internal/service/vote.go).
use voting_service.Base.{
  ℕ, ◌+◌, ◌≡◌, ◌≢◌, ◌↔◌, ◌⊎◌, refl, String, Bool, true, List, [], ◌∷◌, arith, if◌then◌else◌, str_eq,
  str_eq_iff, contains, take, bytes, trim_space, decimal,
}
use voting_service.Entity.Errors.{Error, ok, err, code_of, conflict, invalid_request}
use voting_service.Entity.Ballot.{IsBallot, validate_ballot-IsBallot}
use voting_service.Entity.Window.{IsOpenAt, check_open_at-IsOpenAt}
use voting_service.Ports.{verdict_allow, PollLoader, VoteStore}
use voting_service.Redis.{Net}
use voting_service.Redis.{call}
use voting_service.Entity.Poll.{
  check_open_at, validate_ballot, effective_max_choices, check_options,
}
use voting_service.VoteStore.Keys.{counts_key, quota_key, rate_key, tag_for_shard, voted_key}
use voting_service.VoteStore.Scripts.{
  guard_script, charge, cast_ballot_script, count_ballot, add_votes,
}
use voting_service.VoteStore.Store.{store, guard, cast_ballot, unavailable_as, counted}
use voting_service.VoteStore.Ballots.{tally, Room}
use voting_service.VoteService.Cast.{VoteCommand, cast, cast_in, admit, voter_hash, hash_input, hex}
use voting_service.VoteService.Accepted.{
  IsAccepted, loaded, recorded, cast-IsAccepted, cast_refused,
}
use voting_service.VoteService.Contract.{VoteStoreLaws, store-VoteStoreLaws}
use voting_service.VoteService.Hash.{hash_input_injective}
use voting_service.VoteService.Counted.{cast-votes, cast-votes_alias}
use voting_service.Tests.Server.{server, server-RedisLaws, empty_keys}
use voting_service.Tests.Samples.{lunch, two_shards, checksum_of, vote}

abbrev any_id : String → Bool
any_id id = true

-- Enough of a digest for an example.
abbrev digest : List ℕ → List ℕ
digest b = take 32 b

abbrev lunch_only : PollLoader (Net server)
lunch_only = record { poll = λ id n. (ok lunch, n); invalidate = λ id n. (ok tt, n) }

abbrev redis_store : VoteStore (Net server)
redis_store = store server checksum_of two_shards

abbrev online : Net server
online = record { db = empty_keys; links = [] }

cast-IsAccepted_example :
    (cast any_id digest lunch_only redis_store 15 vote online
      ≡ (ok tt, recorded any_id digest lunch_only redis_store vote online))
    ↔ IsAccepted any_id digest lunch_only redis_store 15 vote online
cast-IsAccepted_example = cast-IsAccepted any_id digest lunch_only redis_store 15 vote online

late : ¬ (IsOpenAt lunch 25 × IsBallot lunch ("a" ∷ "b" ∷ []))
late h = omega (arith, h.0.not_ended 20 refl)

cast_refused_example :
    (e : Error) × (cast any_id digest lunch_only redis_store 25 vote online
      ≡ (err e, loaded any_id digest lunch_only redis_store vote online))
    × ((code_of e ≡ conflict) ⊎ (code_of e ≡ invalid_request))
unfolding trim_space
cast_refused_example =
    cast_refused any_id digest lunch_only redis_store 25 vote online lunch refl (λ e. cc) refl late

store-VoteStoreLaws_example :
    VoteStoreLaws
      (store server checksum_of two_shards)
      (λ n p o. tally server 2 p o n.db)
      (λ m n. Room server m n.db)
store-VoteStoreLaws_example =
    store-VoteStoreLaws server server-RedisLaws checksum_of two_shards (omega arith) (omega arith)
      (omega arith) (omega arith) (omega arith)

hash_input_injective_example : (bytes "p1" ≡ bytes "p1") × (bytes "token" ≡ bytes "token")
unfolding bytes
hash_input_injective_example =
    hash_input_injective "p1" "token" "p1" "token" (omega arith, (omega arith, tt))
      (omega arith, (omega arith, tt)) refl

vote_accepted : IsAccepted any_id digest lunch_only redis_store 15 vote online
unfolding cast cast_in check_open_at validate_ballot effective_max_choices check_options admit
    voter_hash hash_input hex bytes str_eq contains trim_space decimal call guard guard_script
    charge unavailable_as cast_ballot cast_ballot_script count_ballot counted add_votes counts_key
    quota_key rate_key tag_for_shard voted_key
vote_accepted = (cast-IsAccepted any_id digest lunch_only redis_store 15 vote online).0 refl

redis_laws :
    VoteStoreLaws redis_store (λ n p o. tally server 2 p o n.db) (λ m n. Room server m n.db)
redis_laws =
    store-VoteStoreLaws server server-RedisLaws checksum_of two_shards (omega arith) (omega arith)
      (omega arith) (omega arith) (omega arith)

lunch-IsOpenAt : IsOpenAt lunch 15
unfolding check_open_at str_eq
lunch-IsOpenAt = (check_open_at-IsOpenAt lunch 15).0 refl

lunch-IsBallot : IsBallot lunch ("a" ∷ "b" ∷ [])
unfolding validate_ballot effective_max_choices check_options str_eq contains
lunch-IsBallot = (validate_ballot-IsBallot lunch ("a" ∷ "b" ∷ [])).0 refl

vote_judged :
    (redis_store.guard (record { client_ip = vote.client_ip; poll_id = "p1" }) online).0
    ≡ ok verdict_allow
unfolding call guard guard_script charge unavailable_as quota_key rate_key str_eq
vote_judged = refl

abbrev accepted : IsAccepted any_id digest lunch_only redis_store 15 vote online
accepted = record {
  valid_id = refl;
  has_token = vote_accepted.has_token;
  poll = lunch;
  found = refl;
  in_window = lunch-IsOpenAt;
  proper = lunch-IsBallot;
  verdict = verdict_allow;
  judged = vote_judged;
  within_rate = λ e. omega (arith, e);
  within_quota = λ e. omega (arith, e);
  fresh = vote_accepted.fresh;
}

cast-votes_example :
    tally server 2 "p1" "a" (cast any_id digest lunch_only redis_store 15 vote online).1.db
    ≡ tally server 2 "p1" "a" empty_keys + (if contains "a" ("a" ∷ "b" ∷ []) then 1 else 0)
cast-votes_example =
    cast-votes any_id digest lunch_only redis_store (λ n p o. tally server 2 p o n.db)
      (λ m n. Room server m n.db) redis_laws 15 vote online "a" accepted refl refl
      (λ k f. omega arith)

-- The same poll under an identifier in upper case.
abbrev vote_alias : VoteCommand
vote_alias = record vote { poll_id = "P1" }

alias_accepted : IsAccepted any_id digest lunch_only redis_store 15 vote_alias online
unfolding cast cast_in check_open_at validate_ballot effective_max_choices check_options admit
    voter_hash hash_input hex bytes str_eq contains trim_space decimal call guard guard_script
    charge unavailable_as cast_ballot cast_ballot_script count_ballot counted add_votes counts_key
    quota_key rate_key tag_for_shard voted_key
alias_accepted = (cast-IsAccepted any_id digest lunch_only redis_store 15 vote_alias online).0 refl

alias_judged :
    (redis_store.guard (record { client_ip = "10.0.0.1"; poll_id = "P1" }) online).0
    ≡ ok verdict_allow
unfolding call guard guard_script charge unavailable_as quota_key rate_key str_eq
alias_judged = refl

abbrev accepted_alias : IsAccepted any_id digest lunch_only redis_store 15 vote_alias online
accepted_alias = record {
  valid_id = refl;
  has_token = alias_accepted.has_token;
  poll = lunch;
  found = refl;
  in_window = lunch-IsOpenAt;
  proper = lunch-IsBallot;
  verdict = verdict_allow;
  judged = alias_judged;
  within_rate = λ e. omega (arith, e);
  within_quota = λ e. omega (arith, e);
  fresh = alias_accepted.fresh;
}

lower-ne-upper : ◌≢◌ {A = String} "p1" "P1"
unfolding str_eq
lower-ne-upper e = let same : str_eq "p1" "P1" ≡ true = (str_eq_iff "p1" "P1").1 e in cc same

-- The ballot is recorded, and the poll's own count of the option stays at zero.
cast-votes_alias_example :
    tally server 2 "p1" "a" (cast any_id digest lunch_only redis_store 15 vote_alias online).1.db
    ≡ tally server 2 "p1" "a" empty_keys
cast-votes_alias_example =
    cast-votes_alias any_id digest lunch_only redis_store (λ n p o. tally server 2 p o n.db)
      (λ m n. Room server m n.db) redis_laws 15 vote_alias online "a" accepted_alias lower-ne-upper
      refl refl (λ k f. omega arith)
