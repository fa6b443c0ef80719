-- ===== src/Repository/Created.antt =====
-- `PollService.Create` (internal/service/poll.go) and then `GetPoll` (internal/repository/poll.go).
use mathlib.Core.Path.{subst}
use voting_service.Base.{
  ℕ, String, Bool, false, ◌≡◌, refl, sym, ap, ◌∙◌, inl, inr, Option, none, some, List, [], ◌∷◌,
  ◌++◌,
}
use voting_service.Entity.Errors.{Result, ok, ok-injective}
use voting_service.Entity.Poll.{Poll}
use voting_service.Ports.{lift, ◌>>=◌, VoteStore, PollLoader}
use voting_service.Redis.{Link, up, request_lost, reply_lost}
use voting_service.PollService.Build.{PollLimits, CreatePollCommand, number_options}
use voting_service.PollService.Built.{build_poll-IsBuilt}
use voting_service.PollService.Polls.{create}
use voting_service.Repository.Tables.{Tables, append_rows, has_poll, to_micros, maybe_micros}
use voting_service.Repository.Queries.{header, option_rows}
use voting_service.Repository.Poll.{
  Db, Session, closed, next_link, after_link, query, answer, failing,
}
use voting_service.Repository.Calls.{repository, get_poll, read_poll, calling, or_not_found}
use voting_service.Repository.Atomic.{at, rows_of}
use voting_service.Repository.Create.{
  AllOrNothing, Whole, row_at, create-AllOrNothing, some-injective,
}
use voting_service.Repository.RoundTrip.{AllReferenced, plain, option_rows-numbered, scan_poll-new}

-- A poll as the database keeps it: its times in whole microseconds.
unfoldable pub kept : Poll → Poll
kept poll = record poll {
  created_at = to_micros poll.created_at;
  starts_at = maybe_micros poll.starts_at;
  ends_at = maybe_micros poll.ends_at;
}

query-answer :
    {A : Type 0} (read : Tables → Option A) (t : Tables) (s : Session) (links : List Link)
    → next_link (at t s links) ≡ up
    → query read (at t s links) ≡ (answer (read t), after_link (at t s links))
unfolding query
query-answer read t s [] linked = refl
query-answer read t s (up ∷ rest) linked = refl
query-answer read t s (request_lost e ∷ rest) linked = absurd (cc linked)
query-answer read t s (reply_lost e ∷ rest) linked = absurd (cc linked)

module _ (uuid : String → Option String) (new_id : ℕ → String)
    (canonical : (k : ℕ) → uuid (new_id k) ≡ some (new_id k)) where
  read_poll-new :
      (t : Tables) (poll : Poll) (texts : List String)
      → poll.id ≡ new_id 0
      → poll.options ≡ number_options new_id 0 texts
      → poll.finished_at ≡ none
      → AllReferenced t.polls t.options
      → has_poll poll.id t.polls ≡ false
      → read_poll uuid poll.id
          (append_rows t (rows_of (row_at poll.id poll) (plain poll.id poll.options)))
        ≡ some (some (kept poll))
  unfolding read_poll header kept
  read_poll-new t poll texts named numbered unfinished known fresh =
      let here : uuid poll.id ≡ some poll.id = rw named (canonical 0) in
      let scanned =
        scan_poll-new t (append_rows t (rows_of (row_at poll.id poll) (plain poll.id poll.options)))
          (row_at poll.id poll) new_id texts (ap (λ o. t.options ++ plain poll.id o) numbered) known
          fresh in
      let same =
        ap
          (λ o. some (record poll {
            options = o;
            created_at = to_micros poll.created_at;
            starts_at = maybe_micros poll.starts_at;
            ends_at = maybe_micros poll.ends_at;
            finished_at = none;
          }))
          (sym numbered)
        ∙ ap (λ f. some (record (kept poll) { finished_at = f })) (sym unfinished) in
      rw (here, read_poll) (ap some (scanned ∙ same))

  -- The rows that a new poll adds.
  Whole-rows :
      (t t' : Tables) (poll : Poll) (texts : List String)
      → poll.id ≡ new_id 0
      → poll.options ≡ number_options new_id 0 texts
      → Whole uuid t poll t'
      → (has_poll poll.id t.polls ≡ false)
        × (t' ≡ append_rows t (rows_of (row_at poll.id poll) (plain poll.id poll.options)))
  Whole-rows t t' poll texts named numbered (id, rows, known, read, fresh, left) =
      let here : uuid poll.id ≡ some poll.id = rw named (canonical 0) in
      let id_same = some-injective (sym known ∙ here) in
      let rows_read : option_rows uuid id poll.options ≡ some (plain id poll.options) =
        rw numbered (option_rows-numbered uuid id new_id 0 texts canonical) in
      let rows_same = some-injective (sym read ∙ rows_read) in
      (
        ap (λ k. has_poll k t.polls) (sym id_same) ∙ fresh,
        left
            ∙ (ap (λ r. append_rows t (rows_of (row_at id poll) r)) rows_same
                ∙ ap (λ k. append_rows t (rows_of (row_at k poll) (plain k poll.options))) id_same),
      )

  get_poll-answer :
      (id : String) (poll : Poll) (v : Db)
      → next_link v ≡ up
      → read_poll uuid id v.tables ≡ some (some poll)
      → (get_poll uuid id v).0 ≡ ok poll
  unfolding get_poll calling failing query answer or_not_found
  get_poll-answer id poll v linked found =
      let q = query-answer (read_poll uuid id) v.tables v.session v.links linked in
      let a = q ∙ ap (λ o. (answer o, after_link v)) found in ap (λ x. (loading x).0) a
    where
      loading : Result (Option Poll) × Db → Result Poll × Db
      loading (r, w) =
          (lift (failing "get poll" "failed to load poll" r) >>= λ found. lift (or_not_found found))
            w

  module _ (uuid_valid : String → Bool) (store : VoteStore Db) (cache : PollLoader Db)
      (limits : PollLimits) where
    -- A poll that was created can be loaded: where the identifiers that are drawn are canonical
    -- uuids, no transaction is open and the options in the database refer to polls that are there,
    -- if creating returns a poll then loading it by its identifier, from the tables that are left
    -- and over a connection that answers, returns that poll with all its options in order, its
    -- times cut off to microseconds.
    pub get_poll-create :
        (now : ℕ) (cmd : CreatePollCommand) (w v : Db) (poll : Poll)
        → w.session ≡ closed
        → AllReferenced w.tables.polls w.tables.options
        → (create uuid_valid (repository uuid) store cache limits new_id now cmd w).0 ≡ ok poll
        → v.tables
          ≡ (create uuid_valid (repository uuid) store cache limits new_id now cmd w).1.tables
        → next_link v ≡ up
        → (get_poll uuid poll.id v).0 ≡ ok (kept poll)
    unfolding AllOrNothing
    get_poll-create now cmd w v poll idle known returned left linked =
        let (_, done) =
          create-AllOrNothing uuid uuid_valid store cache limits new_id now cmd w idle in
        elim done [
          | inl (_, (e, failed)) ↦ absurd (cc (failed, returned))
          | inr (built_poll, built, whole, inr (e, failed)) ↦ absurd (cc (failed, returned))
          | inr (built_poll, built, whole, inl succeeded) ↦
              let same = ok-injective (sym succeeded ∙ returned) in
              let is_built = build_poll-IsBuilt limits new_id now cmd poll (built ∙ ap ok same) in
              let (fresh, rows) =
                Whole-rows w.tables v.tables poll is_built.texts is_built.named is_built.numbered (
                  subst (λ p. Whole uuid w.tables p v.tables) same
                    (subst (Whole uuid w.tables built_poll) (sym left) whole)) in
              get_poll-answer poll.id (kept poll) v linked (
                ap (read_poll uuid poll.id) rows
                ∙ read_poll-new w.tables poll is_built.texts is_built.named is_built.numbered
                    is_built.unfinished known fresh)
        ]
