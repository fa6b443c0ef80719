-- ===== src/Repository/Queries.antt =====
-- The queries of internal/repository/poll.go as functions of the tables. `uuid` gives the canonical
-- text of what PostgreSQL reads as a uuid, and `none` where it refuses the text.
use Prim.Native.String.{compare}
use Prim.Native.Nat.{Ordering}
use voting_service.Base.{
  ℕ, String, Bool, true, false, not, ◌&&◌, ◌||◌, Option, none, some, List, [], ◌∷◌, ◌++◌, map, take,
  drop, ltb, ◌==◌, if◌then◌else◌, str_eq, contains, lookup, insert,
}
use voting_service.Base.Int.{ℤ, pos, ltb_ℤ}
use voting_service.Entity.Poll.{Poll, PollOption, PollStatus}
use voting_service.Ports.{Counts}
use voting_service.Repository.Tables.{
  PollRow, OptionRow, ResultRow, Tables, to_micros, maybe_micros, poll_ok, has_poll, has_option,
  has_result, order_by,
}

abbrev is_lt : Ordering → Bool
is_lt Ordering.lt = true
is_lt _ = false

abbrev str_before : String → String → Bool
str_before a b = is_lt (compare a b)

-- `ORDER BY position, id`.
abbrev pub option_before : OptionRow → OptionRow → Bool
option_before a b = ltb a.position b.position || (a.position == b.position && str_before a.id b.id)

-- `ORDER BY created_at DESC, id DESC`.
abbrev pub page_before : PollRow → PollRow → Bool
page_before a b =
    ltb b.created_at a.created_at || (a.created_at == b.created_at && str_before b.id a.id)

-- The poll of a row, without options.
unfoldable pub header : PollRow → Poll
header row = record {
  id = row.id;
  question = row.question;
  poll_type = row.poll_type;
  max_choices = row.max_choices;
  status = row.status;
  options = [];
  created_at = row.created_at;
  starts_at = row.starts_at;
  ends_at = row.ends_at;
  finished_at = row.finished_at;
}

unfoldable pub option_of : OptionRow → PollOption
option_of row = record { id = row.id; text = row.text; position = row.position }

unfoldable pub options_of : String → List OptionRow → List OptionRow
options_of id [] = []
options_of id (row ∷ rows) =
    let rest = options_of id rows in if str_eq row.poll_id id then row ∷ rest else rest

-- The rows of one poll beside its options: one row without an option if there is none.
unfoldable pub beside : PollRow → List OptionRow → List (PollRow × Option OptionRow)
beside row [] = (row, none) ∷ []
beside row (o ∷ rows) = map (λ option. (row, some option)) (o ∷ rows)

-- The rows of the `LEFT JOIN` of `GetPoll`.
unfoldable pub joined : String → Tables → List PollRow → List (PollRow × Option OptionRow)
joined id t [] = []
joined id t (row ∷ rows) =
    let rest = joined id t rows in
    if str_eq row.id id
    then beside row (order_by option_before (options_of id t.options)) ++ rest
    else rest

-- The loop of `GetPoll` over the rows.
unfoldable pub add_row : Poll → Option OptionRow → Poll
add_row poll none = poll
add_row poll (some o) = record poll { options = poll.options ++ option_of o ∷ [] }

unfoldable pub scan_poll : Option Poll → List (PollRow × Option OptionRow) → Option Poll
scan_poll found [] = found
scan_poll none ((row, option) ∷ rows) = scan_poll (some (add_row (header row) option)) rows
scan_poll (some poll) ((row, option) ∷ rows) = scan_poll (some (add_row poll option)) rows

-- The query of `ListPollPage`.
unfoldable pub page_rows : ℕ → ℕ → Tables → List PollRow
page_rows limit offset t = take limit (drop offset (order_by page_before t.polls))

-- The rows of the query of `ListOptionsByPollIDs`, and the loop over them: `append` at a key of a map.
unfoldable pub options_in : List String → List OptionRow → List OptionRow
options_in ids [] = []
options_in ids (row ∷ rows) =
    let rest = options_in ids rows in if contains row.poll_id ids then row ∷ rest else rest

abbrev pub at_key : Option (List PollOption) → List PollOption
at_key none = []
at_key (some options) = options

unfoldable pub group_options :
    List (String × List PollOption) → List OptionRow → List (String × List PollOption)
group_options out [] = out
group_options out (row ∷ rows) =
    group_options (insert row.poll_id (at_key (lookup row.poll_id out) ++ option_of row ∷ []) out)
      rows

-- The status of a poll, if it is there.
unfoldable pub status_of : String → List PollRow → Option PollStatus
status_of id [] = none
status_of id (row ∷ rows) = if str_eq row.id id then some row.status else status_of id rows

-- The condition of the `UPDATE` on a row, and the row that it writes.
abbrev pub to_update : String → List PollStatus → PollRow → Bool
to_update id allowed row = str_eq row.id id && contains row.status allowed

abbrev pub updated : PollStatus → Option ℕ → PollRow → PollRow
updated to at row = record row { status = to; finished_at = at }

unfoldable pub matches : String → List PollStatus → List PollRow → Bool
matches id allowed [] = false
matches id allowed (row ∷ rows) = to_update id allowed row || matches id allowed rows

-- The rows after the `UPDATE`; `none` if one breaks a constraint.
unfoldable pub update_rows :
    String → List PollStatus → PollStatus → Option ℕ → List PollRow → Option (List PollRow)
update_rows id allowed to at [] = some []
update_rows id allowed to at (row ∷ rows) =
    let rest = update_rows id allowed to at rows in
    if to_update id allowed row
    then (if poll_ok (updated to at row)
        then elim rest [ none ↦ none | some more ↦ some (updated to at row ∷ more) ]
        else none)
    else elim rest [ none ↦ none | some more ↦ some (row ∷ more) ]

-- `votes = GREATEST(poll_results.votes, EXCLUDED.votes)`.
unfoldable pub raise_votes : String → String → ℤ → List ResultRow → List ResultRow
raise_votes poll_id option_id votes [] = []
raise_votes poll_id option_id votes (row ∷ rows) =
    let rest = raise_votes poll_id option_id votes rows in
    if str_eq row.poll_id poll_id && str_eq row.option_id option_id
    then record row { votes = (if ltb_ℤ row.votes votes then votes else row.votes) } ∷ rest
    else row ∷ rest

-- One row of the upsert of `SaveResults`.
unfoldable pub upsert : String → String → ℤ → Tables → Option Tables
upsert poll_id option_id votes t =
    if not (has_poll poll_id t.polls)
      || (not (has_option option_id t.options) || ltb_ℤ votes (pos 0))
    then none
    else if has_result poll_id option_id t.results
    then some (record t { results = raise_votes poll_id option_id votes t.results })
    else some (record t {
      results =
          t.results ++ record { poll_id = poll_id; option_id = option_id; votes = votes } ∷ [];
    })

-- `WHERE poll_id = $1` on the results.
unfoldable pub results_of : String → List ResultRow → List (String × ℤ)
results_of id [] = []
results_of id (row ∷ rows) =
    let rest = results_of id rows in
    if str_eq row.poll_id id then (row.option_id, row.votes) ∷ rest else rest

-- The loop of `GetResults`.
unfoldable pub scan_results : Counts → List (String × ℤ) → Counts
scan_results counts [] = counts
scan_results counts ((id, votes) ∷ rows) = scan_results (insert id votes counts) rows

module _ (uuid : String → Option String) where
  -- The uuids of an array; `none` if one is refused.
  unfoldable pub read_uuids : List String → Option (List String)
  read_uuids [] = some []
  read_uuids (id ∷ ids) = elim (uuid id) [
    | none ↦ none
    | some key ↦ elim (read_uuids ids) [ none ↦ none | some keys ↦ some (key ∷ keys) ]
  ]

  -- The rows that the inserts write.
  unfoldable pub poll_row : Poll → Option PollRow
  poll_row poll = elim (uuid poll.id) [
    | none ↦ none
    | some id ↦ some (record {
      id = id;
      question = poll.question;
      poll_type = poll.poll_type;
      max_choices = poll.max_choices;
      status = poll.status;
      created_at = to_micros poll.created_at;
      starts_at = maybe_micros poll.starts_at;
      ends_at = maybe_micros poll.ends_at;
      finished_at = none;
    })
  ]

  unfoldable pub option_rows : String → List PollOption → Option (List OptionRow)
  option_rows poll_id [] = some []
  option_rows poll_id (o ∷ options) = elim (uuid o.id) [
    | none ↦ none
    | some id ↦ elim (option_rows poll_id options) [
      | none ↦ none
      | some rows ↦
          some (record { id = id; poll_id = poll_id; text = o.text; position = o.position } ∷ rows)
    ]
  ]

  -- The rows of the upsert in turn; `seen` are the options that it has written.
  unfoldable pub upsert_all : String → List String → Counts → Tables → Option Tables
  upsert_all poll_id seen [] t = some t
  upsert_all poll_id seen ((option_id, votes) ∷ counts) t = elim (uuid option_id) [
    | none ↦ none
    | some id ↦ if contains id seen then none else elim (upsert poll_id id votes t) [
      | none ↦ none
      | some u ↦ upsert_all poll_id (id ∷ seen) counts u
    ]
  ]
