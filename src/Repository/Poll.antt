-- ===== src/Repository/Poll.antt =====
-- The methods of `PollRepository` and `pollTx` (internal/repository/poll.go) over a connection on
-- which a round trip may be lost. One transaction is open at a time, and a statement is one round
-- trip. A query that fails is one whose `Query` or `Exec` fails: the driver may report the same failure later, from `rows.Err`.
use voting_service.Base.{String, Bool, true, false, Option, none, some, List, [], ◌∷◌, map}
use voting_service.Base.Int.{pos}
use voting_service.Entity.Errors.{Error, Result, ok, err, wrapped, wrap_error, unavailable, foreign}
use voting_service.Entity.Poll.{Poll}
use voting_service.Ports.{Action}
use voting_service.Redis.{Link, up, request_lost, reply_lost}
use voting_service.Repository.Tables.{
  OptionRow, ResultRow, Tables, no_rows, append_rows, add_poll, add_option, add_result, add_rows,
}
use voting_service.Repository.Queries.{poll_row, option_rows}

-- A transaction: none, or the rows that it has inserted, or one that a statement has made fail.
pub data Session : Type 0 where
  closed : Session
  running : Tables → Session
  aborted : Session

-- The committed tables, the transaction, and the round trips to come; past the end all arrive.
pub record Db : Type 0 where
  pub tables : Tables
  pub session : Session
  pub links : List Link

abbrev pub next_link : Db → Link
next_link w = elim w.links [ [] ↦ up | link ∷ rest ↦ link ]

abbrev pub after_link : Db → Db
after_link w = record w { links = elim w.links [ [] ↦ [] | link ∷ rest ↦ rest ] }

-- `entity.WrapError(entity.CodeUnavailable, err, …)` inside `fmt.Errorf`.
abbrev pub unavailable_as : String → String → Error → Error
unavailable_as context message e = wrapped context (wrap_error unavailable e message)

-- A result of the driver as the method returns it.
unfoldable pub failing : {A : Type 0} → String → String → Result A → Result A
failing context message (ok a) = ok a
failing context message (err e) = err (unavailable_as context message e)

-- The server refuses a statement.
abbrev pub refused : Error
refused = foreign "ERROR"

unfoldable pub answer : {A : Type 0} → Option A → Result A
answer none = err refused
answer (some a) = ok a

-- A query outside a transaction.
unfoldable pub query : {A : Type 0} → (Tables → Option A) → Action Db A
query read w = elim (next_link w) [
  | up ↦ (answer (read w.tables), after_link w)
  | request_lost e ↦ (err e, after_link w)
  | reply_lost e ↦ (err e, after_link w)
]

-- The tables after a statement that may be refused.
abbrev pub kept : Option Tables → Tables → Tables
kept none t = t
kept (some u) t = u

-- A statement outside a transaction: it commits by itself.
unfoldable pub exec : {A : Type 0} → (Tables → Option (A × Tables)) → Action Db A
exec run w = elim (next_link w) [
  | up ↦ elim (run w.tables) [
    | none ↦ (err refused, after_link w)
    | some (a, t) ↦ (ok a, record (after_link w) { tables = t })
  ]
  | request_lost e ↦ (err e, after_link w)
  | reply_lost e ↦ elim (run w.tables) [
    | none ↦ (err e, after_link w)
    | some (a, t) ↦ (err e, record (after_link w) { tables = t })
  ]
]

-- The transaction after an insert that is answered.
unfoldable pub after_insert : Option Tables → Db → Result (Unit {0}) × Db
after_insert none w = (err refused, record w { session = aborted })
after_insert (some u) w = (ok tt, record w { session = running u })

-- An insert in the transaction. The server rolls back the transaction of a connection that breaks.
unfoldable pub insert_rows : (Tables → Tables → Option Tables) → Action Db (Unit {0})
insert_rows add w = elim w.session [
  | closed ↦ (err (foreign "tx is closed"), w)
  | aborted ↦ elim (next_link w) [
    | up ↦ (err (foreign "current transaction is aborted"), after_link w)
    | request_lost e ↦ (err e, record (after_link w) { session = closed })
    | reply_lost e ↦ (err e, record (after_link w) { session = closed })
  ]
  | running u ↦ elim (next_link w) [
    | up ↦ after_insert (add w.tables u) (after_link w)
    | request_lost e ↦ (err e, record (after_link w) { session = closed })
    | reply_lost e ↦ (err e, record (after_link w) { session = closed })
  ]
]

-- `pgx.Tx.Commit` and `pgx.Tx.Rollback`.
unfoldable pub tx_commit : Action Db (Unit {0})
tx_commit w = elim w.session [
  | closed ↦ (err (foreign "tx is closed"), w)
  | aborted ↦ elim (next_link w) [
    | up ↦ (
      err (foreign "commit unexpectedly resulted in rollback"),
      record (after_link w) { session = closed },
    )
    | request_lost e ↦ (err e, record (after_link w) { session = closed })
    | reply_lost e ↦ (err e, record (after_link w) { session = closed })
  ]
  | running u ↦ elim (next_link w) [
    | up ↦ (ok tt, record (after_link w) { tables = append_rows w.tables u; session = closed })
    | request_lost e ↦ (err e, record (after_link w) { session = closed })
    | reply_lost e ↦
        (err e, record (after_link w) { tables = append_rows w.tables u; session = closed })
  ]
]

unfoldable pub tx_rollback : Action Db (Unit {0})
tx_rollback w = elim (next_link w) [
  | up ↦ (ok tt, record (after_link w) { session = closed })
  | request_lost e ↦ (err e, record (after_link w) { session = closed })
  | reply_lost e ↦ (err e, record (after_link w) { session = closed })
]

-- `BeginTx`, `Commit` and `Rollback`.
unfoldable pub begin_tx : Action Db (Unit {0})
begin_tx w = elim (next_link w) [
  | up ↦ (ok tt, record (after_link w) { session = running no_rows })
  | request_lost e ↦ (err (unavailable_as "begin tx" "failed to create poll" e), after_link w)
  | reply_lost e ↦ (err (unavailable_as "begin tx" "failed to create poll" e), after_link w)
]

unfoldable pub commit : Action Db (Unit {0})
commit w = let (r, w') = tx_commit w in (failing "commit tx" "failed to create poll" r, w')

abbrev pub is_closed : Session → Bool
is_closed closed = true
is_closed _ = false

abbrev rolled_back : Result (Unit {0}) → Result (Unit {0})
rolled_back (ok _) = ok tt
rolled_back (err e) = err (wrapped "rollback tx" e)

-- `pgx.ErrTxClosed` is no failure.
unfoldable pub rollback : Action Db (Unit {0})
rollback w = elim w.session [
  | closed ↦ (ok tt, w)
  | running u ↦ let (r, w') = tx_rollback w in (rolled_back r, w')
  | aborted ↦ let (r, w') = tx_rollback w in (rolled_back r, w')
]

module _ (uuid : String → Option String) where
  -- What the inserts of a poll add; `none` where a uuid or a constraint is refused.
  unfoldable pub staged_poll : Poll → Tables → Tables → Option Tables
  staged_poll poll t u = elim (poll_row uuid poll) [ none ↦ none | some row ↦ add_poll t row u ]

  unfoldable pub staged_options : Poll → Tables → Tables → Option Tables
  staged_options poll t u = elim (uuid poll.id) [
    | none ↦ none
    | some id ↦ elim (option_rows uuid id poll.options) [
      | none ↦ none
      | some rows ↦ add_rows (add_option t) rows u
    ]
  ]

  -- A result of no votes for each option.
  unfoldable pub zero_row : String → OptionRow → ResultRow
  zero_row id o = record { poll_id = id; option_id = o.id; votes = pos 0 }

  unfoldable pub staged_results : Poll → Tables → Tables → Option Tables
  staged_results poll t u = elim (uuid poll.id) [
    | none ↦ none
    | some id ↦ elim (option_rows uuid id poll.options) [
      | none ↦ none
      | some rows ↦ add_rows (add_result t) (map (zero_row id) rows) u
    ]
  ]

  -- `InsertPoll`, `InsertPollOptions` and `InsertZeroResults`.
  unfoldable pub insert_poll : Poll → Action Db (Unit {0})
  insert_poll poll w =
      let (r, w') = insert_rows (staged_poll poll) w in
      (failing "insert poll" "failed to create poll" r, w')

  unfoldable pub insert_poll_options : Poll → Action Db (Unit {0})
  insert_poll_options poll w =
      let (r, w') = insert_rows (staged_options poll) w in
      (failing "insert poll options" "failed to create poll options" r, w')

  unfoldable pub insert_zero_results : Poll → Action Db (Unit {0})
  insert_zero_results poll w =
      let (r, w') = insert_rows (staged_results poll) w in
      (failing "insert poll results" "failed to initialise poll results" r, w')
