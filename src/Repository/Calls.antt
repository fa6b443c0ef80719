-- ===== src/Repository/Calls.antt =====
-- The methods of `PollRepository` outside transactions (internal/repository/poll.go), and the port
-- that the services are given.
use voting_service.Base.{
  ℕ, String, Bool, true, false, Option, none, some, List, [], ◌∷◌, map, length, if◌then◌else◌,
  str_eq,
}
use voting_service.Base.Int.{ℤ, pos, negsuc}
use voting_service.Entity.Errors.{in_context, Result, ok, err, err_poll_not_found, not_updated}
use voting_service.Entity.Poll.{Poll, PollOption, PollStatus, finished}
use voting_service.Ports.{Action, pure, lift, ◌>>=◌, Counts, PollRepository}
use voting_service.Repository.Tables.{Tables, to_micros, order_by}
use voting_service.Repository.Queries.{
  header, joined, scan_poll, page_rows, options_in, group_options, option_before, status_of,
  matches, update_rows, results_of, scan_results, read_uuids, upsert_all,
}
use voting_service.Repository.Poll.{
  Db, failing, query, exec, begin_tx, commit, rollback, insert_poll, insert_poll_options,
  insert_zero_results,
}

-- `errors.Is(err, pgx.ErrNoRows)`, or nothing after the loop: no row is an error of its own.
unfoldable pub or_not_found : {A : Type 0} → Option A → Result A
or_not_found none = err err_poll_not_found
or_not_found (some a) = ok a

unfoldable pub or_not_updated : Bool → Result (Unit {0})
or_not_updated true = ok tt
or_not_updated false = err not_updated

-- A call whose failure is returned as unavailable.
unfoldable pub calling : {A : Type 0} → String → String → Action Db A → Action Db A
calling context message m w = let (r, w') = m w in (failing context message r, w')

-- `Ping`.
unfoldable pub ping : Action Db (Unit {0})
ping w = let (r, w') = query (λ t. some tt) w in (in_context "ping postgres" r, w')

-- `finishedAt`.
unfoldable pub finished_time : PollStatus → ℕ → Option ℕ
finished_time to at = if str_eq to finished then some (to_micros at) else none

-- `CountPolls`.
unfoldable pub count_polls : Action Db ℕ
count_polls = calling "count polls" "failed to count polls" (query (λ t. some (length t.polls)))

-- A negative LIMIT or OFFSET is refused.
unfoldable pub read_page : ℤ → ℤ → Tables → Option (List Poll)
read_page (pos limit) (pos offset) t = some (map header (page_rows limit offset t))
read_page (pos limit) (negsuc n) t = none
read_page (negsuc n) offset t = none

-- `ListPollPage`.
unfoldable pub list_poll_page : ℤ → ℤ → Action Db (List Poll)
list_poll_page limit offset =
    calling "list polls" "failed to list polls" (query (read_page limit offset))

module _ (uuid : String → Option String) where
  -- The query of `GetPoll` and its loop.
  unfoldable pub read_poll : String → Tables → Option (Option Poll)
  read_poll poll_id t = elim (uuid poll_id) [
    | none ↦ none
    | some id ↦ some (scan_poll none (joined id t t.polls))
  ]

  -- `GetPoll`.
  unfoldable pub get_poll : String → Action Db Poll
  get_poll poll_id = do
    found ← calling "get poll" "failed to load poll" (query (read_poll poll_id))
    lift (or_not_found found)

  unfoldable pub read_options : List String → Tables → Option (List (String × List PollOption))
  read_options ids t = elim (read_uuids uuid ids) [
    | none ↦ none
    | some keys ↦ some (group_options [] (order_by option_before (options_in keys t.options)))
  ]

  -- `ListOptionsByPollIDs`: no query for no polls.
  unfoldable pub list_options_by_poll_ids :
      List String → Action Db (List (String × List PollOption))
  list_options_by_poll_ids [] = pure []
  list_options_by_poll_ids (id ∷ ids) =
      calling "list options" "failed to load poll options" (query (read_options (id ∷ ids)))

  -- The `UPDATE` of `UpdatePollStatus`: whether a row is returned, and the tables.
  unfoldable pub run_update :
      String → List PollStatus → PollStatus → ℕ → Tables → Option (Bool × Tables)
  run_update poll_id from to at t = elim (uuid poll_id) [
    | none ↦ none
    | some id ↦ elim (update_rows id from to (finished_time to at) t.polls) [
      | none ↦ none
      | some rows ↦ some (matches id from t.polls, record t { polls = rows })
    ]
  ]

  -- `UpdatePollStatus`.
  unfoldable pub update_poll_status :
      String → List PollStatus → PollStatus → ℕ → Action Db (Unit {0})
  update_poll_status poll_id from to at = do
    returned ←
        calling "update poll status" "failed to update poll status"
          (exec (run_update poll_id from to at))
    lift (or_not_updated returned)

  unfoldable pub read_status : String → Tables → Option (Option PollStatus)
  read_status poll_id t = elim (uuid poll_id) [
    | none ↦ none
    | some id ↦ some (status_of id t.polls)
  ]

  -- `GetPollStatus`.
  unfoldable pub get_poll_status : String → Action Db PollStatus
  get_poll_status poll_id = do
    found ← calling "get poll status" "failed to load poll status" (query (read_status poll_id))
    lift (or_not_found found)

  unfoldable pub read_results : String → Tables → Option Counts
  read_results poll_id t = elim (uuid poll_id) [
    | none ↦ none
    | some id ↦ some (scan_results [] (results_of id t.results))
  ]

  -- `GetResults`.
  unfoldable pub get_results : String → Action Db Counts
  get_results poll_id =
      calling "get results" "failed to load results" (query (read_results poll_id))

  -- The statement of `SaveResults`.
  unfoldable pub run_upsert : String → Counts → Tables → Option ((Unit {0}) × Tables)
  run_upsert poll_id counts t = elim (uuid poll_id) [
    | none ↦ none
    | some id ↦ elim (upsert_all uuid id [] counts t) [ none ↦ none | some u ↦ some (tt, u) ]
  ]

  -- `SaveResults`: nothing to do for no counts.
  unfoldable pub save_results : String → Counts → Action Db (Unit {0})
  save_results poll_id [] = pure tt
  save_results poll_id (count ∷ counts) =
      calling "save results" "failed to persist results"
        (exec (run_upsert poll_id (count ∷ counts)))

  abbrev pub repository : PollRepository Db (Unit {0})
  repository = record {
    begin_tx = begin_tx;
    insert_poll = λ _. insert_poll uuid;
    insert_poll_options = λ _. insert_poll_options uuid;
    insert_zero_results = λ _. insert_zero_results uuid;
    commit = λ _. commit;
    rollback = λ _. rollback;
    get_poll = get_poll;
    count_polls = count_polls;
    list_poll_page = list_poll_page;
    list_options_by_poll_ids = list_options_by_poll_ids;
    update_poll_status = update_poll_status;
    get_poll_status = get_poll_status;
    get_results = get_results;
    save_results = save_results;
  }
