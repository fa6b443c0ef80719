-- ===== src/Repository/Tables.antt =====
-- The tables of the database and the statements of internal/repository/poll.go on them, with the
-- constraints of migrations/000001_initial.up.sql. A uuid is its canonical text, and a time is in
-- whole microseconds, as a TIMESTAMPTZ keeps it; the columns `updated_at` are left out.
use Prim.Native.Char.{code}
use voting_service.Base.{
  ℕ, ◌-◌, ◌%◌, ◌^◌, String, Bool, true, false, not, ◌&&◌, ◌||◌, Option, none, some, List, [], ◌∷◌,
  ◌++◌, ltb, ◌==◌, if◌then◌else◌, str_eq,
}
use voting_service.Base.Int.{ℤ, pos, ltb_ℤ, leb_ℤ}
use voting_service.Entity.Poll.{PollStatus, PollType, valid_status, valid_type, single, finished}

pub record PollRow : Type 0 where
  pub id : String
  pub question : String
  pub poll_type : PollType
  pub max_choices : ℤ
  pub status : PollStatus
  pub created_at : ℕ
  pub starts_at : Option ℕ
  pub ends_at : Option ℕ
  pub finished_at : Option ℕ

pub record OptionRow : Type 0 where
  pub id : String
  pub poll_id : String
  pub text : String
  pub position : ℕ

pub record ResultRow : Type 0 where
  pub poll_id : String
  pub option_id : String
  pub votes : ℤ

pub record Tables : Type 0 where
  pub polls : List PollRow
  pub options : List OptionRow
  pub results : List ResultRow

abbrev pub no_rows : Tables
no_rows = record { polls = []; options = []; results = [] }

-- The rows of both.
abbrev pub append_rows : Tables → Tables → Tables
append_rows t u = record {
  polls = t.polls ++ u.polls;
  options = t.options ++ u.options;
  results = t.results ++ u.results;
}

-- A time as it is kept.
unfoldable pub to_micros : ℕ → ℕ
to_micros t = t - t % 1000

unfoldable pub maybe_micros : Option ℕ → Option ℕ
maybe_micros none = none
maybe_micros (some t) = some (to_micros t)

-- `length(btrim(s)) > 0`: some character is not a space.
unfoldable pub not_blank : String → Bool
not_blank String.[] = false
not_blank (String.◌∷◌ c s) = if code c == 32 then not_blank s else true

abbrev pub is_some : Option ℕ → Bool
is_some none = false
is_some (some t) = true

-- `starts_at IS NULL OR ends_at IS NULL OR ends_at > starts_at`.
abbrev pub window_ordered : Option ℕ → Option ℕ → Bool
window_ordered none end = true
window_ordered (some start) none = true
window_ordered (some start) (some end) = ltb start end

abbrev pub same_test : Bool → Bool → Bool
same_test true b = b
same_test false b = not b

-- The constraints of `polls` on one row.
unfoldable pub poll_ok : PollRow → Bool
poll_ok row =
    not_blank row.question
    && (valid_type row.poll_type
        && (valid_status row.status
            && (leb_ℤ (pos 1) row.max_choices
                && (ltb_ℤ row.max_choices (pos (2 ^ 31))
                    && ((not (str_eq row.poll_type single) || (leb_ℤ row.max_choices (pos 1)))
                        && (window_ordered row.starts_at row.ends_at
                            && same_test (str_eq row.status finished)
                                (is_some row.finished_at)))))))

unfoldable pub has_poll : String → List PollRow → Bool
has_poll id [] = false
has_poll id (row ∷ rows) = str_eq row.id id || has_poll id rows

unfoldable pub has_option : String → List OptionRow → Bool
has_option id [] = false
has_option id (row ∷ rows) = str_eq row.id id || has_option id rows

-- `poll_options_position_unique`.
unfoldable pub has_position : String → ℕ → List OptionRow → Bool
has_position poll_id position [] = false
has_position poll_id position (row ∷ rows) =
    (str_eq row.poll_id poll_id && row.position == position) || has_position poll_id position rows

unfoldable pub has_result : String → String → List ResultRow → Bool
has_result poll_id option_id [] = false
has_result poll_id option_id (row ∷ rows) =
    (str_eq row.poll_id poll_id && str_eq row.option_id option_id)
    || has_result poll_id option_id rows

-- A row of each table, where its constraints hold: `t` is committed, and `u` is what the transaction
-- has inserted.
unfoldable pub add_poll : Tables → PollRow → Tables → Option Tables
add_poll t row u =
    if has_poll row.id (t.polls ++ u.polls) || not (poll_ok row)
    then none
    else some (record u { polls = u.polls ++ row ∷ [] })

unfoldable pub add_option : Tables → OptionRow → Tables → Option Tables
add_option t row u =
    if has_option row.id (t.options ++ u.options)
      || (has_position row.poll_id row.position (t.options ++ u.options)
          || (not (has_poll row.poll_id (t.polls ++ u.polls)) || not (not_blank row.text)))
    then none
    else some (record u { options = u.options ++ row ∷ [] })

unfoldable pub add_result : Tables → ResultRow → Tables → Option Tables
add_result t row u =
    if has_result row.poll_id row.option_id (t.results ++ u.results)
      || (not (has_poll row.poll_id (t.polls ++ u.polls))
          || (not (has_option row.option_id (t.options ++ u.options)) || ltb_ℤ row.votes (pos 0)))
    then none
    else some (record u { results = u.results ++ row ∷ [] })

-- `COPY`: all rows or none.
unfoldable pub add_rows :
    {Row : Type 0} → (Row → Tables → Option Tables) → List Row → Tables → Option Tables
add_rows add [] u = some u
add_rows add (row ∷ rows) u = elim (add row u) [ none ↦ none | some v ↦ add_rows add rows v ]

-- `ORDER BY`: a row goes before the first one that it is strictly before.
unfoldable pub place {ℓ} : {A : Type ℓ} → (A → A → Bool) → A → List A → List A
place before x [] = x ∷ []
place before x (y ∷ ys) =
    let rest = place before x ys in if before y x then y ∷ rest else x ∷ y ∷ ys

unfoldable pub order_by {ℓ} : {A : Type ℓ} → (A → A → Bool) → List A → List A
order_by before [] = []
order_by before (x ∷ xs) = place before x (order_by before xs)
