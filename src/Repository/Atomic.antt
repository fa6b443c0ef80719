-- ===== src/Repository/Atomic.antt =====
-- `PollService.Create` (internal/service/poll.go) over the repository (internal/repository/poll.go):
-- what is committed, wherever the connection breaks.
use voting_service.Base.{
  String, Bool, ◌≡◌, refl, ◌⊎◌, inl, inr, Option, none, some, List, [], ◌∷◌, map,
}
use voting_service.Base.Int.{pos}
use voting_service.Entity.Errors.{Error, Result, ok, err}
use voting_service.Entity.Poll.{Poll}
use voting_service.Ports.{Action, pure, ◌>>◌, wrapping, VoteStore, PollLoader}
use voting_service.Redis.{Link, up, request_lost, reply_lost}
use voting_service.PollService.Build.{PollLimits}
use voting_service.PollService.Polls.{insert_all, then_rollback}
use voting_service.Repository.Tables.{PollRow, OptionRow, Tables, no_rows, append_rows}
use voting_service.Repository.Poll.{
  Db, Session, closed, running, aborted, failing, insert_rows, after_insert, staged_poll,
  staged_options, staged_results, insert_poll, insert_poll_options, insert_zero_results, tx_commit,
  tx_rollback, commit, rollback,
}
use voting_service.Repository.Calls.{repository}

abbrev pub at : Tables → Session → List Link → Db
at t s links = record { tables = t; session = s; links = links }

-- A statement of a transaction: it ends in failure with the same tables, or the rest runs after it.
module _ {A : Type 0} (P : Result A × Db → Type 0) (t : Tables) (k : Action Db A)
    (context message : String)
    (failed : (e : Error) (s : Session) (links : List Link) → P (err e, at t s links)) where
  inserted :
      (s : Session) (links : List Link) (added : Option Tables)
      → ((v : Tables) (rest : List Link) → added ≡ some v → P (k (at t (running v) rest)))
      → P (
          (wrapping "create poll"
                (λ w. let (r, w') = after_insert added w in (failing context message r, w'))
              >> k)
            (at t s links))
  unfolding after_insert failing
  inserted s links none next = failed _ _ _
  inserted s links (some v) next = next v links refl

  insert-step :
      (add : Tables → Tables → Option Tables) (u : Tables) (links : List Link)
      → ((v : Tables) (rest : List Link) → add t u ≡ some v → P (k (at t (running v) rest)))
      → P (
          (wrapping "create poll"
                (λ w. let (r, w') = insert_rows add w in (failing context message r, w'))
              >> k)
            (at t (running u) links))
  unfolding insert_rows failing
  insert-step add u [] next = inserted (running u) [] (add t u) next
  insert-step add u (up ∷ links) next = inserted (running u) links (add t u) next
  insert-step add u (request_lost e ∷ links) next = failed _ _ _
  insert-step add u (reply_lost e ∷ links) next = failed _ _ _

-- The rows of a poll.
abbrev pub rows_of : PollRow → List OptionRow → Tables
rows_of row options = record {
  polls = row ∷ [];
  options = options;
  results = map (λ o. record { poll_id = row.id; option_id = o.id; votes = pos 0 }) options;
}

module _ (uuid : String → Option String) where
  -- The rows of a poll are inserted, each where its constraints hold.
  abbrev pub Inserted : Tables → Poll → Tables → Type 0
  Inserted t poll t' =
      (u : Tables) × (v : Tables) × (x : Tables) × (staged_poll uuid poll t no_rows ≡ some u)
      × (staged_options uuid poll t u ≡ some v)
      × (staged_results uuid poll t v ≡ some x)
      × (t' ≡ append_rows t x)

  -- What is committed beside what is returned: nothing, with an error, or the whole poll.
  abbrev pub Outcome : Tables → Poll → Result Poll × Db → Type 0
  Outcome t poll (r, w) =
      ((w.tables ≡ t) × ((e : Error) × (r ≡ err e)))
      ⊎ (Inserted t poll w.tables × ((r ≡ ok poll) ⊎ ((e : Error) × (r ≡ err e))))

  commit-Outcome :
      (t x : Tables) (poll : Poll) (links : List Link)
      → Inserted t poll (append_rows t x)
      → Outcome t poll ((wrapping "create poll" commit >> pure poll) (at t (running x) links))
  unfolding commit tx_commit failing
  commit-Outcome t x poll [] whole = inr (whole, inl refl)
  commit-Outcome t x poll (up ∷ rest) whole = inr (whole, inl refl)
  commit-Outcome t x poll (request_lost e ∷ rest) whole = inl (refl, (_, refl))
  commit-Outcome t x poll (reply_lost e ∷ rest) whole = inr (whole, inr (_, refl))

  -- What is left of `Create` after each insert.
  abbrev last : Poll → Action Db Poll
  last poll = wrapping "create poll" commit >> pure poll

  abbrev second : Poll → Action Db Poll
  second poll = wrapping "create poll" (insert_zero_results uuid poll) >> last poll

  abbrev first : Poll → Action Db Poll
  first poll = wrapping "create poll" (insert_poll_options uuid poll) >> second poll

  module _ (uuid_valid : String → Bool) (store : VoteStore Db) (cache : PollLoader Db)
      (limits : PollLimits) where
    pub insert_all-Outcome :
        (t : Tables) (poll : Poll) (links : List Link)
        → Outcome t poll (
            insert_all uuid_valid
              (repository uuid)
              store
              cache
              limits
              tt
              poll
              (at t (running no_rows) links))
    unfolding insert_all insert_poll insert_poll_options insert_zero_results
    insert_all-Outcome t poll links =
        insert-step P t (first poll) "insert poll" "failed to create poll" failed
          (staged_poll uuid poll) no_rows links
          (λ u links1 e1.
            insert-step P t (second poll) "insert poll options" "failed to create poll options"
              failed (staged_options uuid poll) u links1
              (λ v links2 e2.
                insert-step P t (last poll) "insert poll results"
                  "failed to initialise poll results" failed (staged_results uuid poll) v links2
                  (λ x links3 e3. commit-Outcome t x poll links3 (u, v, x, e1, e2, e3, refl))))
      where
        P : Result Poll × Db → Type 0
        P = Outcome t poll

        failed : (e : Error) (s : Session) (rest : List Link) → Outcome t poll (err e, at t s rest)
        failed e s rest = inl (refl, (e, refl))

    rollback-tables :
        (t : Tables) (s : Session) (links : List Link)
        → ((rollback (at t s links)).1.tables ≡ t) × ((rollback (at t s links)).1.session ≡ closed)
    unfolding rollback tx_rollback
    rollback-tables t closed links = (refl, refl)
    rollback-tables t (running u) [] = (refl, refl)
    rollback-tables t (running u) (up ∷ rest) = (refl, refl)
    rollback-tables t (running u) (request_lost e ∷ rest) = (refl, refl)
    rollback-tables t (running u) (reply_lost e ∷ rest) = (refl, refl)
    rollback-tables t aborted [] = (refl, refl)
    rollback-tables t aborted (up ∷ rest) = (refl, refl)
    rollback-tables t aborted (request_lost e ∷ rest) = (refl, refl)
    rollback-tables t aborted (reply_lost e ∷ rest) = (refl, refl)

    -- The deferred rollback changes no table, and leaves no transaction.
    pub rolled_back-Outcome :
        (t : Tables) (poll : Poll) (body : Action Db Poll) (w : Db)
        → Outcome t poll (body w)
        → Outcome t poll (then_rollback uuid_valid (repository uuid) store cache limits tt body w)
          × ((then_rollback uuid_valid (repository uuid) store cache limits tt body w).1.session
              ≡ closed)
    unfolding then_rollback
    rolled_back-Outcome t poll body w done =
        let after = (body w).1 in
        let (tables, session) = rollback-tables after.tables after.session after.links in
        (rw tables done, session)
