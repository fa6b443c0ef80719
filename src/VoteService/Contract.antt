-- ===== src/VoteService/Contract.antt =====
-- What the vote use case expects of a vote store: an interface of laws over the votes that the store
-- holds (internal/usecase/ports.go), and the proof that the Redis store (internal/votestore) meets it.
use Prim.Native.String
use voting_service.Base.{ℕ, ◌+◌, ◌<◌, ◌^◌, ◌≡◌, ◌≢◌, ◌∙◌, ap, String, arith, length}
use voting_service.Entity.Errors.{ok}
use voting_service.Ports.{Ballot, GuardRequest, VoteStore}
use voting_service.Redis.{Redis, RedisLaws, Net, call_keeps}
use voting_service.VoteStore.Ballots.{occurs, tally, Room, tally_same}
use voting_service.VoteStore.Scripts.{charge, guard_script}
use voting_service.VoteStore.Store.{Config, seconds, guard, cast_ballot, store}
use voting_service.VoteStore.Votes.{ballot_db-tally, ballot_db-other_poll, cast_ballot-free}

-- `votes w p o` is the number of votes for the option `o` of the poll `p`, and `Fits m w` says that
-- a ballot of `m` options can be counted.
pub record VoteStoreLaws {W : Type 0} (s : VoteStore W) (votes : W → String → String → ℕ)
    (Fits : ℕ → W → Type 0) : Type 0 where
  -- The guard changes no vote.
  pub guard_votes :
      (q : GuardRequest) (w : W) (p o : String) → votes (s.guard q w).1 p o ≡ votes w p o
  pub guard_Fits : (q : GuardRequest) (w : W) (m : ℕ) → Fits m w → Fits m (s.guard q w).1
  -- A recorded ballot counts its options, once each time they stand on it.
  pub cast_votes :
      (b : Ballot) (w : W) (o : String)
      → (s.cast_ballot b w).0 ≡ ok tt
      → Fits (length b.option_ids) w
      → votes (s.cast_ballot b w).1 b.poll_id o ≡ votes w b.poll_id o + occurs o b.option_ids
  -- Another poll, with an identifier of the same length, keeps its votes.
  pub cast_others :
      (b : Ballot) (w : W) (q o : String)
      → String.count q ≡ String.count b.poll_id
      → q ≢ b.poll_id
      → Fits (length b.option_ids) w
      → votes (s.cast_ballot b w).1 q o ≡ votes w q o

module _ (r : Redis) (laws : RedisLaws r) (checksum : String → ℕ) (cfg : Config) where
  charge-field :
      (key : String) (limit window : ℕ) (db : r.Db) (j f : String)
      → 0 < window
      → r.field (charge r key limit window db).1 j f ≡ r.field db j f
  unfolding charge
  charge-field key limit window db j f h =
      ground
        (arith, laws.incr_field key j f db, laws.expire_field key j f window (r.incr key db).1 h)

  guard_script-field :
      (rate quota : String) (l w m v : ℕ) (db : r.Db) (j f : String)
      → 0 < w
      → 0 < v
      → r.field (guard_script r rate quota l w m v db).1 j f ≡ r.field db j f
  unfolding guard_script
  guard_script-field rate quota l w m v db j f p q =
      ground (
        arith,
        charge-field rate l w db j f p,
        charge-field quota m v (charge r rate l w db).1 j f q,
      )

  guard-field :
      (q : GuardRequest) (n : Net r) (j f : String)
      → 0 < seconds cfg.rate_window
      → 0 < seconds cfg.poll_quota_window
      → r.field (guard r checksum cfg q n).1.db j f ≡ r.field n.db j f
  unfolding guard
  guard-field q n j f h v =
      call_keeps r _ n (λ db. r.field db j f) (guard_script-field _ _ _ _ _ _ n.db j f h v)

  guard-tally :
      (k : ℕ) (q : GuardRequest) (n : Net r) (p o : String)
      → 0 < seconds cfg.rate_window
      → 0 < seconds cfg.poll_quota_window
      → tally r k p o (guard r checksum cfg q n).1.db ≡ tally r k p o n.db
  guard-tally k q n p o h v =
      tally_same r k p o n.db (guard r checksum cfg q n).1.db (λ j. guard-field q n _ o h v)

  cast-others :
      (b : Ballot) (n : Net r) (q o : String)
      → String.count q ≡ String.count b.poll_id
      → q ≢ b.poll_id
      → 0 < seconds cfg.counter_retention
      → Room r (length b.option_ids) n.db
      → tally r cfg.shards q o (cast_ballot r checksum cfg b n).1.db ≡ tally r cfg.shards q o n.db
  unfolding cast_ballot
  cast-others b n q o same other t room =
      call_keeps r _ n (tally r cfg.shards q o)
        (ballot_db-other_poll r laws checksum cfg b q o n.db same other t room)

  -- The Redis store meets the contract, with the votes of all shards of a poll, for between one
  -- and 2^32 - 1 shards and for windows and a retention of a second or more.
  pub store-VoteStoreLaws :
      0 < cfg.shards
      → cfg.shards < 2 ^ 32
      → 0 < seconds cfg.rate_window
      → 0 < seconds cfg.poll_quota_window
      → 0 < seconds cfg.counter_retention
      → VoteStoreLaws
          (store r checksum cfg)
          (λ n p o. tally r cfg.shards p o n.db)
          (λ m n. Room r m n.db)
  store-VoteStoreLaws s₀ s₁ w v t = record {
    guard_votes = λ q n p o. guard-tally cfg.shards q n p o w v;
    guard_Fits = λ q n m room k f. rw (guard-field q n k f w v) (room k f);
    cast_votes = λ b n o done room.
        let (free, d, new) = cast_ballot-free r laws checksum cfg b n done in
        ap (tally r cfg.shards b.poll_id o) new
        ∙ ballot_db-tally r laws checksum cfg b o n.db s₀ s₁ d t room
        ∙ rw free;
    cast_others = λ b n q o same other room. cast-others b n q o same other t room;
  }
