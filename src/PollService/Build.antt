-- ===== src/PollService/Build.antt =====
-- `PollService.buildPoll` (internal/service/poll.go). `uuid.NewString` is a parameter: the identifiers
-- that a call draws, in order.
use Prim.Native.String.{count}
use voting_service.Base.{
  ℕ, suc, String, Bool, false, not, Option, none, some, List, [], ◌∷◌, length, ltb, if◌then◌else◌,
  str_eq, contains, trim_space,
}
use voting_service.Base.Int.{ℤ, pos, ltb_ℤ, leb_ℤ}
use voting_service.Entity.Errors.{Result, ok, err, new_error, invalid_request, ◌>>=◌, ◌>>◌}
use voting_service.Entity.Poll.{Poll, PollOption, PollType, draft, single, multiple, valid_type}

-- `PollLimits`.
pub record PollLimits : Type 0 where
  pub max_question_length : ℤ
  pub max_option_length : ℤ
  pub max_options : ℤ
  pub max_page_size : ℤ
  pub default_page_size : ℤ

-- `CreatePollCommand`.
pub record CreatePollCommand : Type 0 where
  pub question : String
  pub poll_type : PollType
  pub max_choices : ℤ
  pub options : List String
  pub starts_at : Option ℕ
  pub ends_at : Option ℕ

abbrev pub refused {ℓ} : {A : Type ℓ} → String → Result A
refused text = err (new_error invalid_request text)

-- The checks of the question, which is trimmed.
unfoldable pub check_question : ℤ → String → Result String
check_question limit raw =
    let question = trim_space raw in
    if str_eq question ""
    then refused "question is required"
    else if ltb_ℤ limit (pos (count question))
    then refused "question is too long"
    else ok question

-- The type, which is `single` by default.
unfoldable pub check_type : PollType → Result PollType
check_type given =
    let poll_type = if str_eq given "" then single else given in
    if not (valid_type poll_type) then refused "unsupported poll type" else ok poll_type

-- The loop over the options, with the texts seen so far: blank options are skipped.
unfoldable pub collect_texts : ℤ → List String → List String → Result (List String)
collect_texts limit seen [] = ok []
collect_texts limit seen (raw ∷ rest) =
    let text = trim_space raw in
    let texts = collect_texts limit (if str_eq text "" then seen else text ∷ seen) rest in
    if str_eq text ""
    then texts
    else if ltb_ℤ limit (pos (count text))
    then refused "option text is too long"
    else if contains text seen
    then refused "options must be distinct"
    else texts >>= λ more. ok (text ∷ more)

unfoldable pub check_size : ℤ → List String → Result (Unit {0})
check_size limit texts =
    if ltb (length texts) 2
    then refused "at least two options are required"
    else if ltb_ℤ limit (pos (length texts))
    then refused "too many options"
    else ok tt

-- The number of choices: one in a poll of type `single`; in one of type `multiple` zero or less means
-- all.
unfoldable pub check_choices : PollType → ℤ → ℕ → Result ℤ
check_choices poll_type given size =
    if str_eq poll_type single
    then ok (pos 1)
    else if str_eq poll_type multiple
    then (let choices = if leb_ℤ given (pos 0) then pos size else given in
        if ltb_ℤ (pos size) choices
        then refused "max_choices exceeds the number of options"
        else ok choices)
    else ok given

-- `StartsAt != nil && EndsAt != nil && !EndsAt.After(*StartsAt)`.
abbrev pub empty_window : Option ℕ → Option ℕ → Bool
empty_window none _ = false
empty_window (some start) none = false
empty_window (some start) (some end) = not (ltb start end)

unfoldable pub check_window : Option ℕ → Option ℕ → Result (Unit {0})
check_window starts_at ends_at =
    if empty_window starts_at ends_at then refused "ends_at must be after starts_at" else ok tt

-- The options, numbered from `position`.
unfoldable pub number_options : (ℕ → String) → ℕ → List String → List PollOption
number_options new_id position [] = []
number_options new_id position (text ∷ texts) =
    record { id = new_id (suc position); text = text; position = position }
    ∷ number_options new_id (suc position) texts

-- `PollService.buildPoll`, at the time `now`.
unfoldable pub build_poll : PollLimits → (ℕ → String) → ℕ → CreatePollCommand → Result Poll
build_poll limits new_id now cmd = do
  question ← check_question limits.max_question_length cmd.question
  poll_type ← check_type cmd.poll_type
  texts ← collect_texts limits.max_option_length [] cmd.options
  check_size limits.max_options texts
  max_choices ← check_choices poll_type cmd.max_choices (length texts)
  check_window cmd.starts_at cmd.ends_at
  ok (record {
    id = new_id 0;
    question = question;
    poll_type = poll_type;
    max_choices = max_choices;
    status = draft;
    options = number_options new_id 0 texts;
    created_at = now;
    starts_at = cmd.starts_at;
    ends_at = cmd.ends_at;
    finished_at = none;
  })
