-- ===== src/VoteStore/Ballots.antt =====
-- What a ballot does to the dedup slot of its voter and to the counters (internal/votestore).
use voting_service.Base.{
  ℕ, zero, suc, ◌+◌, ◌<◌, ◌^◌, String, ◌≡◌, ◌≢◌, refl, sym, ap, ◌∙◌, ◌⊎◌, inl, inr, none, some,
  true, false, List, [], ◌∷◌, arith, length, if◌then◌else◌, str_eq, str_eq_iff, str_eq_refl,
  str_eq_ne, ◌==◌, ltb, Bool-cases,
}
use voting_service.Redis.{Redis, RedisLaws}
use voting_service.VoteStore.Keys.{counts_key}
use voting_service.VoteStore.Scripts.{add_votes, count_ballot, cast_ballot_script}

-- How often an option stands on a ballot.
abbrev pub occurs : String → List String → ℕ
occurs o [] = 0
occurs o (id ∷ ids) = (if str_eq id o then 1 else 0) + occurs o ids

zero-or-positive : (n : ℕ) → (n ≡ 0) ⊎ (0 < n)
zero-or-positive zero = inl refl
zero-or-positive (suc n) = inr (omega arith)

zero-ne-one : some (zero) ≢ some (suc zero)
zero-ne-one e = cc e

module _ (r : Redis) where
  -- The votes for an option in the first `n` shards of a poll.
  abbrev pub tally : ℕ → String → String → r.Db → ℕ
  tally zero p o db = 0
  tally (suc n) p o db = r.field db (counts_key p n) o + tally n p o db

  -- Every counter is `m` or more below the end of its range.
  abbrev pub Room : ℕ → r.Db → Type 0
  Room m db = (k f : String) → r.field db k f + m < 2 ^ 63

  -- The keyspace after the script.
  abbrev pub after : String → String → ℕ → ℕ → List String → r.Db → r.Db
  after voted counts dedup retention ids db =
      (cast_ballot_script r voted counts dedup retention ids db).1

  -- The votes of a poll, when the counter of one of its shards is raised by `v`.
  pub tally_one :
      (n i : ℕ) (p o : String) (v : ℕ) (db db' : r.Db)
      → ((j : ℕ)
          → r.field db' (counts_key p j) o
            ≡ (if i == j then r.field db (counts_key p j) o + v else r.field db (counts_key p j) o))
      → tally n p o db' ≡ (if ltb i n then tally n p o db + v else tally n p o db)
  tally_one zero i p o v db db' h = ground arith
  tally_one (suc n) i p o v db db' h = ground (arith, h n, tally_one n i p o v db db' h)

  -- The votes of a poll, when none of its counters changes.
  pub tally_same :
      (n : ℕ) (p o : String) (db db' : r.Db)
      → ((j : ℕ) → r.field db' (counts_key p j) o ≡ r.field db (counts_key p j) o)
      → tally n p o db' ≡ tally n p o db
  tally_same zero p o db db' h = refl
  tally_same (suc n) p o db db' h = omega (arith, h n, tally_same n p o db db' h)

module _ (r : Redis) (laws : RedisLaws r) where
  hincrby-exists :
      (k f j : String) (db : r.Db) → r.exists j db ≡ true → r.exists j (r.hincrby k f db).1 ≡ true
  hincrby-exists k f j db h = elim (Bool-cases (r.hincrby k f db).0) [
    | inl added ↦ ground (arith, laws.hincrby_exists k f j db added)
    | inr failed ↦ rw (laws.hincrby_failed k f db failed) h
  ]

  pub add_votes-exists :
      (k j : String) (ids : List String) (db : r.Db)
      → r.exists j db ≡ true
      → r.exists j (add_votes r k ids db).1 ≡ true
  unfolding add_votes
  add_votes-exists k j [] db h = h
  add_votes-exists k j (id ∷ ids) db h =
      let this = hincrby-exists k id j db h in
      ground (arith, this, add_votes-exists k j ids (r.hincrby k id db).1 this)

  hincrby-Room :
      (k f : String) (m : ℕ) (db : r.Db) → Room r (suc m) db → Room r m (r.hincrby k f db).1
  hincrby-Room k f m db room j g = ground (arith, laws.hincrby_field k f j g db, room k f, room j g)

  -- Where the counters have room, every option is counted.
  add_votes-reply :
      (k : String) (ids : List String) (db : r.Db)
      → Room r (length ids) db
      → (add_votes r k ids db).0 ≡ true
  unfolding add_votes
  add_votes-reply k [] db room = refl
  add_votes-reply k (id ∷ ids) db room = ground (
    arith,
    laws.hincrby_reply k id db,
    room k id,
    add_votes-reply k ids (r.hincrby k id db).1 (hincrby-Room k id (length ids) db room),
  )

  add_votes-field :
      (k j o : String) (ids : List String) (db : r.Db)
      → Room r (length ids) db
      → r.field (add_votes r k ids db).1 j o
        ≡ (if str_eq k j then r.field db j o + occurs o ids else r.field db j o)
  unfolding add_votes
  add_votes-field k j o [] db room = ground arith
  add_votes-field k j o (id ∷ ids) db room = ground (
    arith,
    add_votes-field k j o ids (r.hincrby k id db).1 (hincrby-Room k id (length ids) db room),
    laws.hincrby_reply k id db,
    laws.hincrby_field k id j o db,
    room k id,
    str_eq_iff k j,
    str_eq_iff id o,
  )

  module _ (voted counts : String) (dedup retention : ℕ) (ids : List String) (db : r.Db) where
    -- Without a lifetime the script fails and changes nothing.
    script_zero : dedup ≡ 0 → cast_ballot_script r voted counts dedup retention ids db ≡ (none, db)
    unfolding cast_ballot_script count_ballot
    script_zero e = rw e (rw (laws.set_nx_zero voted "1" db) refl)

    script_taken :
        0 < dedup
        → r.exists voted db ≡ true
        → cast_ballot_script r voted counts dedup retention ids db ≡ (some 0, db)
    unfolding cast_ballot_script count_ballot
    script_taken d taken =
        rw (laws.set_nx_reply voted "1" dedup db d, taken)
          (ap (λ db'. (some 0, db')) (laws.set_nx_refused voted "1" dedup db taken))

    -- A free slot is claimed, and the ballot is counted.
    script_free :
        0 < dedup
        → r.exists voted db ≡ false
        → cast_ballot_script r voted counts dedup retention ids db
          ≡ count_ballot r counts retention ids (some true) (r.set_nx voted "1" dedup db).1
    unfolding cast_ballot_script
    script_free d free = rw (laws.set_nx_reply voted "1" dedup db d, free) refl

    set_nx-Room : Room r (length ids) db → Room r (length ids) (r.set_nx voted "1" dedup db).1
    set_nx-Room room k f = rw (laws.set_nx_field voted "1" k f dedup db) (room k f)

    pub script_reply :
        0 < dedup
        → Room r (length ids) db
        → (cast_ballot_script r voted counts dedup retention ids db).0
          ≡ some (if r.exists voted db then 0 else 1)
    unfolding cast_ballot_script count_ballot
    script_reply d room = elim (Bool-cases (r.exists voted db)) [
      | inl taken ↦ rw taken (ap (λ s. s.0) (script_taken d taken))
      | inr free ↦ rw free (
          ap (λ s. s.0) (script_free d free)
          ∙ ground (
            arith,
            add_votes-reply counts ids (r.set_nx voted "1" dedup db).1 (set_nx-Room room),
          ))
    ]

    pub script_refused :
        r.exists voted db ≡ true → (after r voted counts dedup retention ids db) ≡ db
    script_refused taken = elim (zero-or-positive dedup) [
      | inl e ↦ ap (λ s. s.1) (script_zero e)
      | inr d ↦ ap (λ s. s.1) (script_taken d taken)
    ]

    -- A script that replies 1 found the slot free, and its lifetime is not 0.
    pub script_one :
        (cast_ballot_script r voted counts dedup retention ids db).0 ≡ some 1
        → (r.exists voted db ≡ false) × (0 < dedup)
    script_one h = elim (zero-or-positive dedup) [
      | inl e ↦ absurd (cc (h, ap (λ s. s.0) (script_zero e)))
      | inr d ↦ elim (Bool-cases (r.exists voted db)) [
        | inl taken ↦ absurd (zero-ne-one (sym (ap (λ s. s.0) (script_taken d taken)) ∙ h))
        | inr free ↦ (free, d)
      ]
    ]

    pub script_slot :
        0 < dedup
        → 0 < retention
        → r.exists voted (after r voted counts dedup retention ids db) ≡ true
    unfolding cast_ballot_script count_ballot
    script_slot d t =
        let db₁ = (r.set_nx voted "1" dedup db).1 in
        let taken : r.exists voted db₁ ≡ true =
          ground (arith, laws.set_nx_exists voted "1" voted dedup db d, str_eq_refl voted) in
        let kept = add_votes-exists counts voted ids db₁ taken in
        elim (Bool-cases (r.exists voted db)) [
          | inl held ↦ ap (λ s. r.exists voted s.1) (script_taken d held) ∙ held
          | inr free ↦
              ap (λ s. r.exists voted s.1) (script_free d free)
              ∙ ground (
                arith,
                kept,
                laws.expire_exists counts voted retention (add_votes r counts ids db₁).1 t,
              )
        ]

    -- A free slot: the ballot's options are counted at the counters' key, and nowhere else.
    pub script_field :
        (j o : String)
        → r.exists voted db ≡ false
        → 0 < dedup
        → 0 < retention
        → Room r (length ids) db
        → r.field (after r voted counts dedup retention ids db) j o
          ≡ (if str_eq counts j then r.field db j o + occurs o ids else r.field db j o)
    unfolding cast_ballot_script count_ballot
    script_field j o free d t room =
        let db₁ = (r.set_nx voted "1" dedup db).1 in
        let room₁ = set_nx-Room room in
        ap (λ s. r.field s.1 j o) (script_free d free)
        ∙ ground (
          arith,
          add_votes-reply counts ids db₁ room₁,
          laws.set_nx_field voted "1" j o dedup db,
          add_votes-field counts j o ids db₁ room₁,
          laws.expire_field counts j o retention (add_votes r counts ids db₁).1 t,
        )

    -- A counter at another key keeps its votes.
    pub script_other :
        (j o : String)
        → counts ≢ j
        → 0 < retention
        → Room r (length ids) db
        → r.field (after r voted counts dedup retention ids db) j o ≡ r.field db j o
    script_other j o other t room = elim (zero-or-positive dedup) [
      | inl e ↦ ap (λ s. r.field s.1 j o) (script_zero e)
      | inr d ↦ elim (Bool-cases (r.exists voted db)) [
        | inl taken ↦ ap (λ s. r.field s.1 j o) (script_taken d taken)
        | inr free ↦ script_field j o free d t room ∙ rw (str_eq_ne counts j other) refl
      ]
    ]
