-- ===== src/SyncService/Stores.antt =====
-- The synchroniser (internal/service/sync.go) over the Redis store (internal/votestore) and the
-- repository (internal/repository/poll.go), side by side: together they meet the laws of `Durable`.
use voting_service.Base.{
  ℕ, ◌<◌, ◌^◌, ◌≡◌, ◌≢◌, refl, sym, ap, ◌∙◌, inl, inr, String, Bool, Option, true, false,
  if◌then◌else◌, none, some, List, [], contains, lookup, str_eq_ne, arith, Bool-cases, ◌≤◌,
}
use voting_service.Base.Int.{ℤ, pos}
use voting_service.Entity.Errors.{Result, ok, err, ok-injective}
use voting_service.Ports.{Action, Counts, VoteStore, PollRepository}
use voting_service.Redis.{Redis, RedisLaws, Net, raw_number, call, call_ok, call_keeps}
use voting_service.VoteStore.Keys.{tracked_polls_key}
use voting_service.VoteStore.Ballots.{tally, tally_same}
use voting_service.VoteStore.Replies.{Holds}
use voting_service.VoteStore.Counters.{counters-tally}
use voting_service.VoteStore.Store.{
  Config, store, counters, tracked_polls, untrack_poll, unavailable_as, sum_replies, read_shards,
}
use voting_service.Repository.Poll.{Db}
use voting_service.Repository.Calls.{repository}
use voting_service.Repository.Kept.{get_poll-tables}
use voting_service.Repository.Bounded.{votes_in, AllKept}
use voting_service.Repository.Persisted.{
  save_results-read_poll, save_results-grows, save_results-reaches, save_results-bounded,
  save_results-other_poll,
}
use voting_service.Repository.Loaded.{flat, stored_in, get_poll-stored, get_poll-missing}
use voting_service.SyncService.Durable.{Views, SyncLaws}

-- A poll and its options under canonical uuids.
abbrev pub Canonical : (String → Option String) → String → List String → Type 0
Canonical uuid p ids = (uuid p ≡ some p) × ((o : String) → contains o ids ≡ true → uuid o ≡ some o)

abbrev on_store : {V W A : Type 0} → Action V A → Action (V × W) A
on_store m w = let (a, v) = m w.0 in (a, (v, w.1))

abbrev on_tables : {V W A : Type 0} → Action W A → Action (V × W) A
on_tables m w = let (a, v) = m w.1 in (a, (w.0, v))

-- A store beside a repository, each with a world of its own.
abbrev pub store_beside : {V W : Type 0} → VoteStore V → VoteStore (V × W)
store_beside s = record {
  guard = λ q. on_store (s.guard q);
  cast_ballot = λ b. on_store (s.cast_ballot b);
  counters = λ p ids. on_store (s.counters p ids);
  track_poll = λ p. on_store (s.track_poll p);
  tracked_polls = on_store s.tracked_polls;
  untrack_poll = λ p. on_store (s.untrack_poll p);
  ping = on_store s.ping;
}

abbrev pub repository_beside : {V W Tx : Type 0} → PollRepository W Tx → PollRepository (V × W) Tx
repository_beside s = record {
  begin_tx = on_tables s.begin_tx;
  insert_poll = λ tx p. on_tables (s.insert_poll tx p);
  insert_poll_options = λ tx p. on_tables (s.insert_poll_options tx p);
  insert_zero_results = λ tx p. on_tables (s.insert_zero_results tx p);
  commit = λ tx. on_tables (s.commit tx);
  rollback = λ tx. on_tables (s.rollback tx);
  get_poll = λ p. on_tables (s.get_poll p);
  count_polls = on_tables s.count_polls;
  list_poll_page = λ l o. on_tables (s.list_poll_page l o);
  list_options_by_poll_ids = λ ids. on_tables (s.list_options_by_poll_ids ids);
  update_poll_status = λ p from to at. on_tables (s.update_poll_status p from to at);
  get_poll_status = λ p. on_tables (s.get_poll_status p);
  get_results = λ p. on_tables (s.get_results p);
  save_results = λ p c. on_tables (s.save_results p c);
}

module _ (r : Redis) (laws : RedisLaws r) (checksum : String → ℕ) (cfg : Config)
    (uuid : String → Option String) where
  abbrev pub World : Type 0
  World = Net r × Db

  -- The votes of all shards, the rows of the results, the polls that are read, and the set of
  -- tracked polls.
  abbrev pub views : Views World
  views = record {
    votes = λ w p o. tally r cfg.shards p o w.0.db;
    durable = λ w p o. votes_in p o w.1.tables.results;
    stored = λ w p. stored_in uuid p w.1.tables;
    tracked = λ w p. contains p (r.smembers tracked_polls_key w.0.db);
  }

  counters-db :
      (p : String) (ids : List String) (n : Net r) → (counters r checksum cfg p ids n).1.db ≡ n.db
  unfolding counters
  counters-db p ids n = call_keeps r _ n (λ db. db) refl

  tracked_polls-db : (n : Net r) → (tracked_polls r checksum cfg n).1.db ≡ n.db
  unfolding tracked_polls
  tracked_polls-db n = call_keeps r _ n (λ db. db) refl

  -- A reply that makes counts is the one that a server without faults gives.
  sum_replies-arrived :
      (ids : List String) (reply : Result (List (List (String × String)))) (c : Counts)
      → sum_replies ids reply ≡ ok c
      → (replies : List (List (String × String))) × (reply ≡ ok replies)
  unfolding sum_replies
  sum_replies-arrived ids (ok replies) c e = (replies, refl)
  sum_replies-arrived ids (err e') c e = absurd (cc e)

  -- The pipeline of `Counters`.
  abbrev reading : String → r.Db → List (List (String × String)) × r.Db
  reading p db = (read_shards r cfg.shards p db, db)

  counters-Holds :
      (p : String) (ids : List String) (n : Net r) (c : Counts)
      → ((o : String) → tally r cfg.shards p o n.db < 2 ^ 63)
      → (counters r checksum cfg p ids n).0 ≡ ok c
      → Holds ids (λ o. tally r cfg.shards p o n.db) c
  unfolding counters call
  counters-Holds p ids n c room done =
      let (replies, arrived) = sum_replies-arrived ids (call r (reading p) n).0 c done in
      let (said, _) = call_ok r (reading p) n arrived in
      let (c', given, held) =
        counters-tally r laws checksum cfg p ids (record { db = n.db; links = [] }) tt room in
      let same : c' ≡ c = ok-injective (
        sym given
        ∙ ap (λ x. sum_replies ids (ok x)) said
        ∙ ap (sum_replies ids) (sym arrived)
        ∙ done) in
      λ o. ap (lookup o) (sym same) ∙ held o

  unavailable_as-ok :
      {A : Type 0} (message : String) (reply : Result A) (a : A)
      → unavailable_as message reply ≡ ok a
      → reply ≡ ok a
  unfolding unavailable_as
  unavailable_as-ok message (ok b) a e = e
  unavailable_as-ok message (err c) a e = absurd (cc e)

  tracked_polls-members :
      (n : Net r) (ids : List String)
      → (tracked_polls r checksum cfg n).0 ≡ ok ids
      → r.smembers tracked_polls_key n.db ≡ ids
  unfolding tracked_polls
  tracked_polls-members n ids done =
      (call_ok r (λ db. (r.smembers tracked_polls_key db, db)) n
        (unavailable_as-ok _ (call r (λ db. (r.smembers tracked_polls_key db, db)) n).0 ids done)).0

  untrack_poll-tally :
      (p q o : String) (n : Net r)
      → tally r cfg.shards q o (untrack_poll r checksum cfg p n).1.db ≡ tally r cfg.shards q o n.db
  unfolding untrack_poll
  untrack_poll-tally p q o n =
      call_keeps r _ n (tally r cfg.shards q o)
        (tally_same r cfg.shards q o n.db _ (λ j. laws.srem_field tracked_polls_key p _ o n.db))

  untrack_poll-others :
      (p q : String) (n : Net r)
      → q ≢ p
      → contains q (r.smembers tracked_polls_key (untrack_poll r checksum cfg p n).1.db)
        ≡ contains q (r.smembers tracked_polls_key n.db)
  unfolding untrack_poll
  untrack_poll-others p q n other =
      call_keeps r _ n (λ db. contains q (r.smembers tracked_polls_key db))
        (laws.srem_member tracked_polls_key p q n.db ∙ rw (str_eq_ne p q (λ e. other (sym e))) refl)

  -- The keys of counts for canonical options are canonical.
  Holds-AllKept :
      (p : String) (ids : List String) (g : String → ℕ) (c : Counts)
      → Canonical uuid p ids
      → Holds ids g c
      → AllKept uuid c
  Holds-AllKept p ids g c named h k there = elim (Bool-cases (contains k ids)) [
    | inl asked ↦ named.1 k asked
    | inr other ↦ absurd (there (h k ∙ rw other refl))
  ]

  Holds-most :
      (ids : List String) (g : String → ℕ) (c : Counts) (o : String)
      → Holds ids g c
      → (z : ℤ) → lookup o c ≡ some z
      → raw_number (some z) ≤ g o
  Holds-most ids g c o h z found = by_asked (contains o ids) (sym found ∙ h o)
    where
      by_asked :
          (asked : Bool)
          → some z ≡ (if asked then some (pos (g o)) else none)
          → raw_number (some z) ≤ g o
      by_asked true e = omega (arith, ap raw_number e)
      by_asked false e = absurd (cc e)

  -- The Redis store and the repository, side by side, meet the laws of the synchroniser, for polls
  -- and options under canonical uuids.
  pub stores-SyncLaws :
      SyncLaws
        (repository_beside (repository uuid))
        (store_beside (store r checksum cfg))
        views
        (Canonical uuid)
  stores-SyncLaws = record {
    get_poll_Agree = λ p w. record {
      votes = λ q o. refl;
      durable = λ q o. ap (λ t. votes_in q o t.results) (get_poll-tables uuid p w.1);
      stored = λ q. ap (stored_in uuid q) (get_poll-tables uuid p w.1);
      tracked = λ q. refl;
    };
    get_poll_ok = λ p w. get_poll-stored uuid p w.1;
    get_poll_missing = λ p w. get_poll-missing uuid p w.1;
    counters_Agree = λ p ids w. record {
      votes = λ q o. ap (tally r cfg.shards q o) (counters-db p ids w.0);
      durable = λ q o. refl;
      stored = λ q. refl;
      tracked =
          λ q. ap (λ db. contains q (r.smembers tracked_polls_key db)) (counters-db p ids w.0);
    };
    counters_ok = λ p ids w c. counters-Holds p ids w.0 c;
    tracked_polls_Agree = λ w. record {
      votes = λ q o. ap (tally r cfg.shards q o) (tracked_polls-db w.0);
      durable = λ q o. refl;
      stored = λ q. refl;
      tracked = λ q. ap (λ db. contains q (r.smembers tracked_polls_key db)) (tracked_polls-db w.0);
    };
    tracked_polls_ok = λ w ids p done. ap (contains p) (sym (tracked_polls-members w.0 ids done));
    save_ok = λ p o ids g c w named h done asked.
        save_results-reaches uuid p o (g o) c w.1 named.0 (named.1 o asked) (h o ∙ rw asked refl)
          done;
    save_grows = λ p c w q o. save_results-grows uuid p q o c w.1;
    save_bounded = λ p ids g c w o named h.
        save_results-bounded uuid p o (g o) c w.1 named.0 (Holds-AllKept p ids g c named h)
          (Holds-most ids g c o h);
    save_others =
        λ p ids c w q o named other. save_results-other_poll uuid p q o c w.1 named.0 other;
    save_votes = λ p c w q o. refl;
    save_stored = λ p c w q. ap flat (save_results-read_poll uuid p q c w.1);
    save_tracked = λ p c w q. refl;
    untrack_votes = λ p w q o. untrack_poll-tally p q o w.0;
    untrack_durable = λ p w q o. refl;
    untrack_stored = λ p w q. refl;
    untrack_others = λ p w q other. untrack_poll-others p q w.0 other;
  }
