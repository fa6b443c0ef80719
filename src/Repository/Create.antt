-- ===== src/Repository/Create.antt =====
-- `PollService.Create` (internal/service/poll.go) over the repository (internal/repository/poll.go):
-- all rows of a poll or none.
use mathlib.Core.Path.{subst}
use voting_service.Base.{
  ℕ, String, Bool, false, ◌≡◌, refl, sym, ap, ◌∙◌, ◌⊎◌, inl, inr, Option, none, some, List, [], ◌∷◌,
  ◌++◌, map,
}
use voting_service.Entity.Errors.{Error, Result, ok, err}
use voting_service.Entity.Poll.{Poll}
use voting_service.Ports.{Action, lift, ◌>>=◌, wrapping, VoteStore, PollLoader}
use voting_service.Redis.{Link, up, request_lost, reply_lost}
use voting_service.PollService.Build.{PollLimits, CreatePollCommand, build_poll}
use voting_service.PollService.Polls.{create, insert_all, then_rollback}
use voting_service.Repository.Tables.{
  PollRow, OptionRow, Tables, no_rows, append_rows, has_poll, add_poll, to_micros, maybe_micros,
}
use voting_service.Repository.Queries.{poll_row, option_rows}
use voting_service.Repository.Poll.{
  Db, closed, running, staged_poll, staged_options, staged_results, zero_row, begin_tx,
}
use voting_service.Repository.Calls.{repository}
use voting_service.Repository.Rows.{
  add_poll-rows, add_poll-fresh, add_options-rows, add_results-rows,
}
use voting_service.Repository.Atomic.{
  Inserted, at, rows_of, insert_all-Outcome, rolled_back-Outcome,
}

pub some-bind :
    {A B : Type 0} (o : Option A) (f : A → Option B) (b : B)
    → (elim o as (λ _. Option B) [ none ↦ none | some a ↦ f a ]) ≡ some b
    → (a : A) × (o ≡ some a) × (f a ≡ some b)
some-bind none f b e = absurd (cc e)
some-bind (some a) f b e = (a, refl, e)

pub some-injective : {A : Type 0} {a b : A} → some a ≡ some b → a ≡ b
some-injective e = cc

-- The row that is written for a poll with the given identifier.
abbrev pub row_at : String → Poll → PollRow
row_at id poll = record {
  id = id;
  question = poll.question;
  poll_type = poll.poll_type;
  max_choices = poll.max_choices;
  status = poll.status;
  created_at = to_micros poll.created_at;
  starts_at = maybe_micros poll.starts_at;
  ends_at = maybe_micros poll.ends_at;
  finished_at = none;
}

module _ (uuid : String → Option String) where
  -- The rows of the poll beside those that were there.
  abbrev pub Whole : Tables → Poll → Tables → Type 0
  Whole t poll t' =
      (id : String) × (rows : List OptionRow) × (uuid poll.id ≡ some id)
      × (option_rows uuid id poll.options ≡ some rows)
      × (has_poll id t.polls ≡ false)
      × (t' ≡ append_rows t (rows_of (row_at id poll) rows))

  staged_poll-rows :
      (poll : Poll) (t u v : Tables) (id : String)
      → uuid poll.id ≡ some id
      → staged_poll uuid poll t u ≡ some v
      → v ≡ record u { polls = u.polls ++ row_at id poll ∷ [] }
  unfolding staged_poll poll_row
  staged_poll-rows poll t u v id known e =
      let (row, found, added) = some-bind (poll_row uuid poll) (λ row. add_poll t row u) v e in
      let (key, read, same) = some-bind (uuid poll.id) (λ id. some (row_at id poll)) row found in
      let row_same =
        sym (some-injective same) ∙ ap (λ k. row_at k poll) (some-injective (sym read ∙ known)) in
      add_poll-rows t (row_at id poll) u v (ap (λ r. add_poll t r u) (sym row_same) ∙ added)

  staged_poll-fresh :
      (poll : Poll) (t v : Tables) (id : String)
      → uuid poll.id ≡ some id
      → staged_poll uuid poll t no_rows ≡ some v
      → has_poll id t.polls ≡ false
  unfolding staged_poll poll_row
  staged_poll-fresh poll t v id known e =
      let (row, found, added) =
        some-bind (poll_row uuid poll) (λ row. add_poll t row no_rows) v e in
      let (key, read, same) = some-bind (uuid poll.id) (λ id. some (row_at id poll)) row found in
      let id_same =
        sym (some-injective (sym read ∙ known)) ∙ ap (λ r. r.id) (some-injective same) in
      ap (λ k. has_poll k t.polls) id_same ∙ add_poll-fresh t row v added

  staged_options-rows :
      (poll : Poll) (t u v : Tables)
      → staged_options uuid poll t u ≡ some v
      → (id : String) × (rows : List OptionRow) × (uuid poll.id ≡ some id)
        × (option_rows uuid id poll.options ≡ some rows)
        × (v ≡ record u { options = u.options ++ rows })
  unfolding staged_options
  staged_options-rows poll t u v e =
      let (id, known, e1) = some-bind (uuid poll.id) _ v e in
      let (rows, read, added) = some-bind (option_rows uuid id poll.options) _ v e1 in
      (id, rows, known, read, add_options-rows t rows u v added)

  staged_results-rows :
      (poll : Poll) (t u v : Tables) (id : String) (rows : List OptionRow)
      → uuid poll.id ≡ some id
      → option_rows uuid id poll.options ≡ some rows
      → staged_results uuid poll t u ≡ some v
      → v ≡ record u { results = u.results ++ map (zero_row uuid id) rows }
  unfolding staged_results
  staged_results-rows poll t u v id rows known read e =
      let (key, known2, e1) = some-bind (uuid poll.id) _ v e in
      let (found, read2, added) = some-bind (option_rows uuid key poll.options) _ v e1 in
      let key_same = some-injective (sym known2 ∙ known) in
      let rows_same =
        some-injective (sym read2 ∙ (ap (λ k. option_rows uuid k poll.options) key_same ∙ read)) in
      add_results-rows t (map (zero_row uuid key) found) u v added
      ∙ (ap (λ k. record u { results = u.results ++ map (zero_row uuid k) found }) key_same
          ∙ ap (λ r. record u { results = u.results ++ map (zero_row uuid id) r }) rows_same)

  Inserted-Whole :
      (t : Tables) (poll : Poll) (t' : Tables) → Inserted uuid t poll t' → Whole t poll t'
  unfolding zero_row
  Inserted-Whole t poll t' (u, v, x, e1, e2, e3, last) =
      let (id, rows, known, read, p2) = staged_options-rows poll t u v e2 in
      let p1 = staged_poll-rows poll t no_rows u id known e1 in
      let p3 = staged_results-rows poll t v x id rows known read e3 in
      let p12 = p2 ∙ ap {A = Tables} (λ u. record u { options = u.options ++ rows }) p1 in
      let p123 =
        p3
        ∙ ap {A = Tables} (λ v. record v { results = v.results ++ map (zero_row uuid id) rows })
            p12 in
      (
        id,
        rows,
        known,
        read,
        staged_poll-fresh poll t u id known e1,
        last ∙ ap (append_rows t) p123,
      )

  module _ (uuid_valid : String → Bool) (store : VoteStore Db) (cache : PollLoader Db)
      (limits : PollLimits) where
    abbrev creating : (ℕ → String) → ℕ → CreatePollCommand → Action Db Poll
    creating = create uuid_valid (repository uuid) store cache limits

    -- What `Create` leaves: no transaction, and nothing or the whole poll in the tables.
    unfoldable pub AllOrNothing : Result Poll → Db → Result Poll × Db → Type 0
    AllOrNothing built w done =
        (done.1.session ≡ closed)
        × (((done.1.tables ≡ w.tables) × ((e : Error) × (done.0 ≡ err e)))
            ⊎ ((poll : Poll) × (built ≡ ok poll)
                × Whole w.tables poll done.1.tables
                × ((done.0 ≡ ok poll) ⊎ ((e : Error) × (done.0 ≡ err e)))))

    abbrev inside : Poll → Action Db Poll
    inside poll =
        then_rollback uuid_valid (repository uuid) store cache limits tt
          (insert_all uuid_valid (repository uuid) store cache limits tt poll)

    in_transaction :
        (t : Tables) (links : List Link) (poll : Poll)
        → AllOrNothing (ok poll) (at t closed []) (inside poll (at t (running no_rows) links))
    unfolding AllOrNothing
    in_transaction t links poll =
        let (done, ended) =
          rolled_back-Outcome uuid uuid_valid store cache limits t poll _ _
            (insert_all-Outcome uuid uuid_valid store cache limits t poll links) in
        (
          ended,
          elim done [
            | inl nothing ↦ inl nothing
            | inr (rows, returned) ↦ inr (poll, refl, Inserted-Whole t poll _ rows, returned)
          ],
        )

    begun :
        (t : Tables) (links : List Link) (poll : Poll)
        → AllOrNothing
            (ok poll)
            (at t closed links)
            ((wrapping "create poll" begin_tx >>= λ tx. inside poll) (at t closed links))
    unfolding begin_tx AllOrNothing
    begun t [] poll = in_transaction t [] poll
    begun t (up ∷ rest) poll = in_transaction t rest poll
    begun t (request_lost e ∷ rest) poll = (refl, inl (refl, (_, refl)))
    begun t (reply_lost e ∷ rest) poll = (refl, inl (refl, (_, refl)))

    built-AllOrNothing :
        (built : Result Poll) (t : Tables) (links : List Link)
        → AllOrNothing built (at t closed links) (
            (wrapping "build poll" (lift built) >>= λ poll.
            wrapping "create poll" begin_tx >>= λ tx. inside poll)
              (at t closed links))
    unfolding AllOrNothing
    built-AllOrNothing (ok poll) t links = begun t links poll
    built-AllOrNothing (err e) t links = (refl, inl (refl, (_, refl)))

    -- Creating a poll is atomic, whichever round trip to the database is lost and whatever statement
    -- is refused: no transaction stays open, and either the tables are as before and an error is
    -- returned, or the command is valid and the poll's row, the rows of all its options and a result
    -- of no votes for each of them are there, beside every row that was there before. In the second
    -- case the poll that was built is returned, or an error where the reply to the commit is lost.
    pub create-AllOrNothing :
        (new_id : ℕ → String) (now : ℕ) (cmd : CreatePollCommand) (w : Db)
        → w.session ≡ closed
        → AllOrNothing (build_poll limits new_id now cmd) w (creating new_id now cmd w)
    unfolding create
    create-AllOrNothing new_id now cmd w idle =
        let built = build_poll limits new_id now cmd in
        subst (λ v. AllOrNothing built v (creating new_id now cmd v))
          (sym (ap (λ s. at w.tables s w.links) idle)) (built-AllOrNothing built w.tables w.links)
