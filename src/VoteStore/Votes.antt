-- ===== src/VoteStore/Votes.antt =====
-- What `Store.CastBallot` promises: one counted ballot to a voter (internal/votestore).
use Prim.Native.String
use voting_service.Base.{
  ℕ, ◌+◌, ◌<◌, ◌^◌, String, ◌≡◌, refl, ◌≢◌, ◌∙◌, ap, sym, false, Option, none, some, arith, length,
  if◌then◌else◌, str_eq, str_eq_ne, str_eq_refl, Bool-cases, inl, inr, ◌==◌, ==_iff,
}
use native.Mathlib.Nat.{mod-lt, mod-eq_of_lt}
use voting_service.Entity.Errors.{ok, err, new_error, already_voted, Result-cases}
use voting_service.Ports.{Ballot}
use voting_service.Redis.{Redis, RedisLaws, Net, IsUp, remaining, call_up, call, call_ok}
use voting_service.VoteStore.Keys.{shard_of, counts_key, voted_key}
use voting_service.VoteStore.Names.{counts_key_injective, counts_key_poll}
use voting_service.VoteStore.Scripts.{cast_ballot_script}
use voting_service.VoteStore.Store.{Config, seconds, cast_ballot, counted}
use voting_service.VoteStore.Ballots.{
  occurs, tally, Room, after, script_reply, script_refused, script_field, script_one, script_other,
  tally_one, tally_same,
}

counts_key-test : (p : String) (i j : ℕ) → str_eq (counts_key p i) (counts_key p j) ≡ (i == j)
counts_key-test p i j = elim (Bool-cases (i == j)) [
  | inl same ↦ rw (same, (==_iff i j).0 same) (str_eq_refl (counts_key p j))
  | inr other ↦
      rw other (str_eq_ne _ _ (λ e. cc (other, (==_iff i j).1 (counts_key_injective p i j e))))
]

-- The dedup slot of a ballot's voter.
abbrev pub slot : (String → ℕ) → Config → Ballot → String
slot checksum cfg b = voted_key b.poll_id (shard_of checksum cfg.shards b.voter_hash) b.voter_hash

-- The keyspace after a ballot, when the store answers.
abbrev pub ballot_db : (r : Redis) → (String → ℕ) → Config → Ballot → r.Db → r.Db
ballot_db r checksum cfg b db =
    after r (slot checksum cfg b) (counts_key b.poll_id (shard_of checksum cfg.shards b.voter_hash))
      (seconds cfg.dedup_ttl) (seconds cfg.counter_retention) b.option_ids db

shard-lt :
    (checksum : String → ℕ) (n : ℕ) (h : String) → 0 < n → n < 2 ^ 32 → shard_of checksum n h < n
shard-lt checksum n h p q = rw (mod-eq_of_lt q) (mod-lt _ p)

-- Only a reply of 1 confirms a ballot.
counted-one : (count : Option ℕ) → counted (ok count) ≡ ok tt → count ≡ some 1
unfolding counted
counted-one none h = absurd (cc h)
counted-one (some n) h = ground (arith, ==_iff n 1)

module _ (r : Redis) (laws : RedisLaws r) where
  module _ (checksum : String → ℕ) (cfg : Config) where
    -- The script that a ballot runs.
    abbrev command : Ballot → r.Db → Option ℕ × r.Db
    command c =
        cast_ballot_script r (slot checksum cfg c)
          (counts_key c.poll_id (shard_of checksum cfg.shards c.voter_hash)) (seconds cfg.dedup_ttl)
          (seconds cfg.counter_retention) c.option_ids

    cast_ballot-up :
        (b : Ballot) (n : Net r)
        → IsUp n.links
        → cast_ballot r checksum cfg b n ≡ (
          counted (ok (command b n.db).0),
          record { db = ballot_db r checksum cfg b n.db; links = remaining n.links },
        )
    unfolding cast_ballot
    cast_ballot-up b n h = rw (call_up r _ n h) refl

    -- When the store answers, a ballot is refused exactly if the dedup slot of its voter is taken,
    -- and confirmed otherwise. There are between one and 2^32 - 1 shards, the counters have room,
    -- and the lifetime of a slot is a second or more.
    pub cast_ballot-slot :
        (b : Ballot) (n : Net r)
        → IsUp n.links
        → 0 < cfg.shards
        → cfg.shards < 2 ^ 32
        → 0 < seconds cfg.dedup_ttl
        → Room r (length b.option_ids) n.db
        → (cast_ballot r checksum cfg b n).0 ≡ (
            if r.exists (slot checksum cfg b) n.db
            then err (new_error already_voted "this device has already voted in this poll")
            else ok tt)
    unfolding counted
    cast_ballot-slot b n h s₀ s₁ d room =
        ap (λ c. c.0) (cast_ballot-up b n h)
        ∙ ap (λ c. counted (ok c)) (script_reply r laws _ _ _ _ b.option_ids n.db d room)
        ∙ ground arith

    pub ballot_db-tally :
        (b : Ballot) (o : String) (db : r.Db)
        → 0 < cfg.shards
        → cfg.shards < 2 ^ 32
        → 0 < seconds cfg.dedup_ttl
        → 0 < seconds cfg.counter_retention
        → Room r (length b.option_ids) db
        → tally r cfg.shards b.poll_id o (ballot_db r checksum cfg b db) ≡ (
            if r.exists (slot checksum cfg b) db
            then tally r cfg.shards b.poll_id o db
            else tally r cfg.shards b.poll_id o db + occurs o b.option_ids)
    ballot_db-tally b o db s₀ s₁ d t room = elim (Bool-cases (r.exists (slot checksum cfg b) db)) [
      | inl taken ↦ rw (taken, script_refused r laws _ _ _ _ _ _ taken)
      | inr free ↦ rw free (
          tally_one r cfg.shards shard b.poll_id o (occurs o b.option_ids) db
            (ballot_db r checksum cfg b db)
            (λ j.
              script_field r laws _ _ _ _ b.option_ids db (counts_key b.poll_id j) o free d t room
              ∙ ap (λ t. if t then votes j + occurs o b.option_ids else votes j)
                  (counts_key-test b.poll_id shard j))
          ∙ ground (arith, shard-lt checksum cfg.shards b.voter_hash s₀ s₁))
    ]
      where
        shard : ℕ
        shard = shard_of checksum cfg.shards b.voter_hash

        votes : ℕ → ℕ
        votes j = r.field db (counts_key b.poll_id j) o

    -- When the store answers and the slot of the voter is free, each option of the poll gains the
    -- votes that the ballot has for it, over all shards; a taken slot changes no counter. There
    -- are between one and 2^32 - 1 shards, the counters have room, and the lifetime of a slot and
    -- the retention are a second or more.
    pub cast_ballot-tally :
        (b : Ballot) (o : String) (n : Net r)
        → IsUp n.links
        → 0 < cfg.shards
        → cfg.shards < 2 ^ 32
        → 0 < seconds cfg.dedup_ttl
        → 0 < seconds cfg.counter_retention
        → Room r (length b.option_ids) n.db
        → tally r cfg.shards b.poll_id o (cast_ballot r checksum cfg b n).1.db ≡ (
            if r.exists (slot checksum cfg b) n.db
            then tally r cfg.shards b.poll_id o n.db
            else tally r cfg.shards b.poll_id o n.db + occurs o b.option_ids)
    cast_ballot-tally b o n h s₀ s₁ d t room =
        rw (cast_ballot-up b n h) (ballot_db-tally b o n.db s₀ s₁ d t room)

    -- Ballots for one poll change no counter of another poll whose identifier has as many characters.
    pub ballot_db-other_poll :
        (b : Ballot) (q o : String) (db : r.Db)
        → String.count q ≡ String.count b.poll_id
        → q ≢ b.poll_id
        → 0 < seconds cfg.counter_retention
        → Room r (length b.option_ids) db
        → tally r cfg.shards q o (ballot_db r checksum cfg b db) ≡ tally r cfg.shards q o db
    ballot_db-other_poll b q o db same other t room =
        tally_same r cfg.shards q o db (ballot_db r checksum cfg b db) (λ j.
          script_other r laws _ _ _ _ b.option_ids db (counts_key q j) o
            (λ e. other (sym (counts_key_poll b.poll_id q _ j (sym same) e))) t room)

    -- A ballot that the store confirms had a free slot.
    pub cast_ballot-free :
        (b : Ballot) (n : Net r)
        → (cast_ballot r checksum cfg b n).0 ≡ ok tt
        → (r.exists (slot checksum cfg b) n.db ≡ false)
          × (0 < seconds cfg.dedup_ttl)
          × ((cast_ballot r checksum cfg b n).1.db ≡ ballot_db r checksum cfg b n.db)
    unfolding cast_ballot counted
    cast_ballot-free b n h = elim (Result-cases (call r (command b) n).0) [
      | inr (e, lost) ↦ ground arith
      | inl (count, replied) ↦
          let (said, done) = call_ok r (command b) n replied in
          let one = counted-one count (ap counted (sym replied) ∙ h) in
          let (free, d) = script_one r laws _ _ _ _ b.option_ids n.db (said ∙ one) in
          (free, d, done)
    ]
