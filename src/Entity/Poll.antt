-- ===== src/Entity/Poll.antt =====
-- Polls and their checks (internal/entity/poll.go). A `time.Time` is the number of nanoseconds since
-- Go's zero time, and a nil `*time.Time` is `none`.
use voting_service.Base.{
  ℕ, String, Bool, false, not, ◌||◌, Option, none, some, List, [], ◌∷◌, map, length, ltb,
  if◌then◌else◌, str_eq, contains, decimal,
}
use voting_service.Base.Int.{ℤ, pos, leb_ℤ, ltb_ℤ, pos_part}
use voting_service.Entity.Errors.{Result, ok, err, new_error, invalid_request, conflict}
use Prim.Native.String.{◌++◌ as ◌<>◌}

-- `PollStatus` and `PollType` are strings with named values.
abbrev pub PollStatus : Type 0
PollStatus = String

abbrev pub draft : PollStatus
draft = "draft"

abbrev pub active : PollStatus
active = "active"

abbrev pub finished : PollStatus
finished = "finished"

abbrev pub PollType : Type 0
PollType = String

abbrev pub single : PollType
single = "single"

abbrev pub multiple : PollType
multiple = "multiple"

-- `PollStatus.Valid` and `PollType.Valid`.
unfoldable pub valid_status : PollStatus → Bool
valid_status s = str_eq s draft || (str_eq s active || str_eq s finished)

unfoldable pub valid_type : PollType → Bool
valid_type t = str_eq t single || str_eq t multiple

pub record PollOption : Type 0 where
  pub id : String
  pub text : String
  pub position : ℕ

pub record Poll : Type 0 where
  pub id : String
  pub question : String
  pub poll_type : PollType
  pub max_choices : ℤ
  pub status : PollStatus
  pub options : List PollOption
  pub created_at : ℕ
  pub starts_at : Option ℕ
  pub ends_at : Option ℕ
  pub finished_at : Option ℕ

-- `Poll.OptionIDs`.
abbrev pub option_ids : Poll → List String
option_ids p = map (λ o. o.id) p.options

-- `Poll.effectiveMaxChoices`.
unfoldable pub effective_max_choices : Poll → ℤ
effective_max_choices p =
    if str_eq p.poll_type single
    then pos 1
    else if leb_ℤ p.max_choices (pos 0) || ltb_ℤ (pos (length p.options)) p.max_choices
    then pos (length p.options)
    else p.max_choices

-- The loop of `ValidateBallot` over the ballot, with the identifiers seen so far.
unfoldable pub check_options : List String → List String → List String → Result (Unit {0})
check_options known seen [] = ok tt
check_options known seen (id ∷ ids) =
    if not (contains id known)
    then err (new_error invalid_request "option does not belong to this poll")
    else if contains id seen
    then err (new_error invalid_request "duplicate option in ballot")
    else check_options known (id ∷ seen) ids

-- The text of the size error: `fmt.Sprintf` with `%d`.
unfoldable pub too_many_text : ℤ → String
too_many_text n = "this poll accepts at most " <> (decimal (pos_part n) <> " option(s) per ballot")

-- `Poll.ValidateBallot`.
unfoldable pub validate_ballot : Poll → List String → Result (Unit {0})
validate_ballot p [] = err (new_error invalid_request "at least one option must be selected")
validate_ballot p (id ∷ ids) =
    if ltb_ℤ (effective_max_choices p) (pos (length (id ∷ ids)))
    then err (new_error invalid_request (too_many_text (effective_max_choices p)))
    else check_options (option_ids p) [] (id ∷ ids)

-- `p.StartsAt != nil && now.Before(*p.StartsAt)`.
abbrev pub before_start : ℕ → Option ℕ → Bool
before_start now none = false
before_start now (some start) = ltb now start

-- `p.EndsAt != nil && !now.Before(*p.EndsAt)`.
abbrev pub after_end : ℕ → Option ℕ → Bool
after_end now none = false
after_end now (some end) = not (ltb now end)

-- `Poll.CheckOpenAt`.
unfoldable pub check_open_at : Poll → ℕ → Result (Unit {0})
check_open_at p now =
    if not (str_eq p.status active)
    then err (new_error conflict "poll is not accepting votes")
    else if before_start now p.starts_at
    then err (new_error conflict "voting has not started yet")
    else if after_end now p.ends_at
    then err (new_error conflict "voting has ended")
    else ok tt
