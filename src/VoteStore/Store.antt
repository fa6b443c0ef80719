-- ===== src/VoteStore/Store.antt =====
-- The methods of `votestore.Store` (internal/votestore/redis.go).
use Prim.Native.String.{◌++◌ as ◌<>◌}
use voting_service.Base.{
  ℕ, zero, suc, ◌/◌, String, Option, none, some, List, [], ◌∷◌, ◌++◌, ◌==◌, if◌then◌else◌, lookup,
  insert, parse_int,
}
use voting_service.Base.Int.{pos, add_int64}
use voting_service.Entity.Errors.{
  Result, ok, err, new_error, wrap_error, wrapped, foreign, unavailable, already_voted, internal,
}
use voting_service.Ports.{Action, GuardRequest, Verdict, Ballot, Counts, VoteStore}
use voting_service.Redis.{Redis, Net, call}
use voting_service.VoteStore.Keys.{
  tracked_polls_key, shard_of, counts_key, voted_key, rate_key, quota_key,
}
use voting_service.VoteStore.Scripts.{guard_script, cast_ballot_script}

-- `Config`; a window or a lifetime is in nanoseconds.
pub record Config : Type 0 where
  pub shards : ℕ
  pub dedup_ttl : ℕ
  pub counter_retention : ℕ
  pub rate_limit : ℕ
  pub rate_window : ℕ
  pub poll_quota : ℕ
  pub poll_quota_window : ℕ

-- `int(d.Seconds())`.
abbrev pub seconds : ℕ → ℕ
seconds d = d / 1_000_000_000

-- `entity.WrapError(CodeUnavailable, err, message)` on a failed round trip.
unfoldable pub unavailable_as : {A : Type 0} → String → Result A → Result A
unavailable_as message (ok a) = ok a
unavailable_as message (err e) = err (wrap_error unavailable e message)

-- The map with a zero for every option.
unfoldable pub zero_counts : List String → Counts → Counts
zero_counts [] counts = counts
zero_counts (id ∷ ids) counts = zero_counts ids (insert id (pos 0) counts)

-- The loop over one reply: fields that are not asked for are skipped.
unfoldable pub add_reply : List (String × String) → Counts → Result Counts
add_reply [] counts = ok counts
add_reply ((id, raw) ∷ reply) counts = elim (lookup id counts) [
  | none ↦ add_reply reply counts
  | some old ↦ elim (parse_int raw) [
    | none ↦
        err (wrap_error internal (foreign "strconv.ParseInt") ("corrupt counter for option " <> id))
    | some value ↦ add_reply reply (insert id (add_int64 old value) counts)
  ]
]

unfoldable pub add_replies : List (List (String × String)) → Counts → Result Counts
add_replies [] counts = ok counts
add_replies (reply ∷ replies) counts = elim (add_reply reply counts) [
  | ok counts' ↦ add_replies replies counts'
  | err e ↦ err e
]

-- The reply of the script: anything but 1 is a second vote, and the script's own error fails as a
-- round trip does.
unfoldable pub counted : Result (Option ℕ) → Result (Unit {0})
counted (ok none) = err (
    wrapped "cast ballot"
      (wrap_error unavailable (foreign "redis") "voting is temporarily unavailable"))
counted (ok (some count)) =
    if count == 1
    then ok tt
    else err (new_error already_voted "this device has already voted in this poll")
counted (err e) =
    err (wrapped "cast ballot" (wrap_error unavailable e "voting is temporarily unavailable"))

-- The pipeline of `Store.Counters`: the hash of each of the first `n` shards, in order.
unfoldable pub read_shards : (r : Redis) → ℕ → String → r.Db → List (List (String × String))
read_shards r zero poll_id db = []
read_shards r (suc n) poll_id db =
    read_shards r n poll_id db ++ (r.hgetall (counts_key poll_id n) db ∷ [])

-- What `Store.Counters` does with the replies.
unfoldable pub sum_replies : List String → Result (List (List (String × String))) → Result Counts
sum_replies ids (ok replies) = add_replies replies (zero_counts ids [])
sum_replies ids (err e) = err (wrap_error unavailable e "vote counters are temporarily unavailable")

module _ (r : Redis) (checksum : String → ℕ) (cfg : Config) where
  -- `Store.Guard`.
  unfoldable pub guard : GuardRequest → Action (Net r) Verdict
  guard req n =
      let (reply, n') =
        call r
          (guard_script r (rate_key req.client_ip) (quota_key req.client_ip req.poll_id)
            cfg.rate_limit (seconds cfg.rate_window) cfg.poll_quota (seconds cfg.poll_quota_window))
          n in
      (unavailable_as "voting is temporarily unavailable" reply, n')

  -- `Store.CastBallot`.
  unfoldable pub cast_ballot : Ballot → Action (Net r) (Unit {0})
  cast_ballot ballot n =
      let shard = shard_of checksum cfg.shards ballot.voter_hash in
      let (reply, n') =
        call r
          (cast_ballot_script r (voted_key ballot.poll_id shard ballot.voter_hash)
            (counts_key ballot.poll_id shard) (seconds cfg.dedup_ttl)
            (seconds cfg.counter_retention) ballot.option_ids)
          n in
      (counted reply, n')

  -- `Store.Counters`.
  unfoldable pub counters : String → List String → Action (Net r) Counts
  counters poll_id ids n =
      let (replies, n') = call r (λ db. (read_shards r cfg.shards poll_id db, db)) n in
      (sum_replies ids replies, n')

  -- `Store.TrackPoll`, `Store.TrackedPolls`, `Store.UntrackPoll` and `Store.Ping`.
  unfoldable pub track_poll : String → Action (Net r) (Unit {0})
  track_poll poll_id n =
      let (reply, n') = call r (λ db. (tt, r.sadd tracked_polls_key poll_id db)) n in
      (unavailable_as "failed to track poll for synchronisation" reply, n')

  unfoldable pub tracked_polls : Action (Net r) (List String)
  tracked_polls n =
      let (reply, n') = call r (λ db. (r.smembers tracked_polls_key db, db)) n in
      (unavailable_as "failed to list tracked polls" reply, n')

  unfoldable pub untrack_poll : String → Action (Net r) (Unit {0})
  untrack_poll poll_id n =
      let (reply, n') = call r (λ db. (tt, r.srem tracked_polls_key poll_id db)) n in
      (unavailable_as "failed to untrack poll" reply, n')

  unfoldable pub ping : Action (Net r) (Unit {0})
  ping n = call r (λ db. (tt, db)) n

  -- `New`: the store as the port of the services.
  abbrev pub store : VoteStore (Net r)
  store = record {
    guard = guard;
    cast_ballot = cast_ballot;
    counters = counters;
    track_poll = track_poll;
    tracked_polls = tracked_polls;
    untrack_poll = untrack_poll;
    ping = ping;
  }
