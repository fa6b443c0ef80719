-- ===== src/VoteStore/Once.antt =====
-- A voter is counted once (internal/votestore), whatever is lost between the client and Redis.
use voting_service.Base.{
  ℕ, ◌+◌, ◌≤◌, ◌<◌, ◌^◌, ◌≡◌, refl, ◌∙◌, ap, ◌⊎◌, inl, inr, String, true, List, [], ◌∷◌, arith,
  length,
}
use voting_service.Ports.{Ballot}
use voting_service.Redis.{Redis, RedisLaws, Net, call_db}
use voting_service.VoteStore.Ballots.{occurs, tally, Room, script_refused, script_slot}
use voting_service.VoteStore.Store.{Config, seconds, cast_ballot}
use voting_service.VoteStore.Votes.{slot, ballot_db, ballot_db-tally}

-- The ballots of one voter in one poll, by their options.
abbrev pub ballot_of : String → String → List String → Ballot
ballot_of p h ids = record { poll_id = p; voter_hash = h; option_ids = ids }

-- Every ballot names the option at most once, and `m` options at most.
abbrev pub AllProper : ℕ → String → List (List String) → Type 0
AllProper m o [] = Unit
AllProper m o (ids ∷ rest) = (occurs o ids ≤ 1) × (length ids ≤ m) × AllProper m o rest

module _ (r : Redis) (checksum : String → ℕ) (cfg : Config) where
  -- The voter submits one ballot after another, also after errors.
  pub casts : String → String → List (List String) → Net r → Net r
  casts p h [] n = n
  casts p h (ids ∷ rest) n = casts p h rest (cast_ballot r checksum cfg (ballot_of p h ids) n).1

module _ (r : Redis) (laws : RedisLaws r) (checksum : String → ℕ) (cfg : Config) where
  cast_ballot-db :
      (b : Ballot) (n : Net r)
      → ((cast_ballot r checksum cfg b n).1.db ≡ n.db)
        ⊎ ((cast_ballot r checksum cfg b n).1.db ≡ ballot_db r checksum cfg b n.db)
  unfolding cast_ballot
  cast_ballot-db b n = call_db r _ n

  -- A voter whose slot is taken changes nothing.
  casts_taken :
      (p h : String) (all : List (List String)) (n : Net r)
      → r.exists (slot checksum cfg (ballot_of p h [])) n.db ≡ true
      → (casts r checksum cfg p h all n).db ≡ n.db
  unfolding casts
  casts_taken p h [] n taken = refl
  casts_taken p h (ids ∷ rest) n taken =
      let n' = (cast_ballot r checksum cfg (ballot_of p h ids) n).1 in
      let same : n'.db ≡ n.db = unchanged (cast_ballot-db (ballot_of p h ids) n) in
      casts_taken p h rest n' (ap (r.exists _) same ∙ taken) ∙ same
    where
      unchanged :
          (let n' = (cast_ballot r checksum cfg (ballot_of p h ids) n).1 in
            (n'.db ≡ n.db) ⊎ (n'.db ≡ ballot_db r checksum cfg (ballot_of p h ids) n.db))
          → (cast_ballot r checksum cfg (ballot_of p h ids) n).1.db ≡ n.db
      unchanged (inl e) = e
      unchanged (inr e) = e ∙ script_refused r laws _ _ _ _ ids n.db taken

  -- However often a voter submits ballots for a poll, and whatever is lost on the way, an option
  -- gains at most one vote, as long as the dedup slot does not expire: for ballots that name the
  -- option at most once, counters with room for a ballot, between one and 2^32 - 1 shards, and
  -- lifetimes of a second or more.
  pub casts-tally-le :
      (p h o : String) (m : ℕ) (all : List (List String)) (n : Net r)
      → AllProper m o all
      → Room r m n.db
      → 0 < cfg.shards
      → cfg.shards < 2 ^ 32
      → 0 < seconds cfg.dedup_ttl
      → 0 < seconds cfg.counter_retention
      → tally r cfg.shards p o (casts r checksum cfg p h all n).db ≤ tally r cfg.shards p o n.db + 1
  unfolding casts
  casts-tally-le p h o m [] n proper room s₀ s₁ d t = omega arith
  casts-tally-le p h o m (ids ∷ rest) n proper room s₀ s₁ d t =
      let n' = (cast_ballot r checksum cfg (ballot_of p h ids) n).1 in
      let votes : r.Db → ℕ = tally r cfg.shards p o in
      elim (cast_ballot-db (ballot_of p h ids) n) [
        | inl same ↦ omega (
          arith,
          ap votes same,
          casts-tally-le p h o m rest n' proper.2 (λ k f. rw same (room k f)) s₀ s₁ d t,
        )
        | inr new ↦
            let taken =
              ap (r.exists (slot checksum cfg (ballot_of p h []))) new
              ∙ script_slot r laws _ _ _ _ ids n.db d t in
            ground (
              arith,
              ap votes (casts_taken p h rest n' taken),
              ap votes new,
              ballot_db-tally r laws checksum cfg (ballot_of p h ids) o n.db s₀ s₁ d t
                  (λ k f. omega (arith, room k f, proper.1)),
            )
      ]
