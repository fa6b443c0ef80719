-- ===== src/Repository/Loaded.antt =====
-- What an answer of `GetPoll` (internal/repository/poll.go) says of the tables.
use voting_service.Base.{String, ◌≡◌, refl, ap, Option, none, some, List, [], ◌∷◌}
use voting_service.Entity.Errors.{
  Error, Result, ok, err, ok-injective, code_of, not_found, wrapped, wrap_error, unavailable,
}
use voting_service.Entity.Poll.{Poll}
use voting_service.Ports.{lift, ◌>>=◌}
use voting_service.Redis.{Link, up, request_lost, reply_lost}
use voting_service.Repository.Tables.{Tables}
use voting_service.Repository.Poll.{Db, Session, query, answer, failing}
use voting_service.Repository.Calls.{get_poll, read_poll, calling, or_not_found}
use voting_service.Repository.Atomic.{at}

abbrev pub flat : Option (Option Poll) → Option Poll
flat none = none
flat (some found) = found

-- The poll that is read under an identifier, if there is one.
abbrev pub stored_in : (String → Option String) → String → Tables → Option Poll
stored_in uuid p t = flat (read_poll uuid p t)

-- A query that is answered has read the tables.
query-ran :
    {A : Type 0} (ran : Option A) (t : Tables) (s : Session) (links : List Link) (a : A)
    → (query (λ _. ran) (at t s links)).0 ≡ ok a
    → ran ≡ some a
unfolding query answer
query-ran none t s [] a e = absurd (cc e)
query-ran (some b) t s [] a e = ap some (ok-injective e)
query-ran none t s (up ∷ rest) a e = absurd (cc e)
query-ran (some b) t s (up ∷ rest) a e = ap some (ok-injective e)
query-ran ran t s (request_lost c ∷ rest) a e = absurd (cc e)
query-ran ran t s (reply_lost c ∷ rest) a e = absurd (cc e)

-- The result of the call, of the result of its query.
abbrev loading : Result (Option Poll) → Db → Result Poll
loading r w =
    ((lift (failing "get poll" "failed to load poll" r) >>= λ found. lift (or_not_found found)) w).0

loading-ok :
    (r : Result (Option Poll)) (w : Db) (poll : Poll) → loading r w ≡ ok poll → r ≡ ok (some poll)
unfolding failing or_not_found
loading-ok (ok none) w poll e = absurd (cc e)
loading-ok (ok (some q)) w poll e = ap (λ x. ok (some x)) (ok-injective e)
loading-ok (err c) w poll e = absurd (cc e)

loading-missing :
    (r : Result (Option Poll)) (w : Db) (e : Error)
    → loading r w ≡ err e
    → code_of e ≡ not_found
    → r ≡ ok none
unfolding failing or_not_found code_of
loading-missing (ok none) w e failed missing = refl
loading-missing (ok (some q)) w e failed missing = absurd (cc failed)
loading-missing (err c) w e failed missing = absurd (cc (missing, unavailable_code c e failed))
  where
    unavailable_code :
        (c e : Error)
        → (let sent : Result Poll =
              err (wrapped "get poll" (wrap_error unavailable c "failed to load poll")) in
            sent ≡ err e)
        → unavailable ≡ code_of e
    unavailable_code c e same =
        let inner : wrapped "get poll" (wrap_error unavailable c "failed to load poll") ≡ e =
          cc same in
        ap code_of inner

module _ (uuid : String → Option String) where
  pub get_poll-stored :
      (p : String) (w : Db) (poll : Poll)
      → (get_poll uuid p w).0 ≡ ok poll
      → stored_in uuid p w.tables ≡ some poll
  unfolding get_poll calling query
  get_poll-stored p w poll e =
      let asked = loading-ok (query (read_poll uuid p) w).0 (query (read_poll uuid p) w).1 poll e in
      let read =
        query-ran (read_poll uuid p w.tables) w.tables w.session w.links (some poll) asked in
      ap flat read

  pub get_poll-missing :
      (p : String) (w : Db) (e : Error)
      → (get_poll uuid p w).0 ≡ err e
      → code_of e ≡ not_found
      → stored_in uuid p w.tables ≡ none
  unfolding get_poll calling query
  get_poll-missing p w e failed missing =
      let asked =
        loading-missing (query (read_poll uuid p) w).0 (query (read_poll uuid p) w).1 e failed
          missing in
      let read = query-ran (read_poll uuid p w.tables) w.tables w.session w.links none asked in
      ap flat read
