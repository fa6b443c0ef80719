-- ===== src/PollService/Built.antt =====
-- What a new poll is like (internal/service/poll.go).
use Prim.Native.String.{count}
use voting_service.Base.{
  ℕ, suc, ◌≤◌, ◌≡◌, ◌≢◌, refl, ap, String, true, false, Option, none, List, [], ◌∷◌, length, arith,
  sym, trim_space, HasInk, trim_space-HasInk, contains, str_eq, str_eq_iff, Bool-cases, inl, inr,
}
use voting_service.Base.Int.{ltb_ℤ, ℤ, pos, ◌≤ℤ◌}
use voting_service.Entity.Errors.{ok-injective, ◌>>=◌, Result, ok, err}
use voting_service.Entity.Poll.{effective_max_choices, Poll, PollType, draft, single, valid_type}
use voting_service.PollService.Build.{
  PollLimits, CreatePollCommand, check_question, check_type, collect_texts, check_size,
  check_choices, check_window, empty_window, number_options, build_poll,
}

-- Every text is absent from those seen, no text repeats, and each has a character that is not white
-- space.
abbrev pub Distinct : List String → List String → Type 0
Distinct seen [] = Unit
Distinct seen (text ∷ texts) =
    (contains text seen ≡ false) × HasInk text × Distinct (text ∷ seen) texts

filled_text : (raw : String) → str_eq (trim_space raw) "" ≡ false → trim_space raw ≢ ""
filled_text raw filled e = cc (filled, (str_eq_iff (trim_space raw) "").1 e)

collected :
    (r : Result (List String)) (text : String) (texts : List String)
    → (r >>= λ more. ok (text ∷ more)) ≡ ok texts
    → (more : List String) × (r ≡ ok more) × (texts ≡ text ∷ more)
collected (ok more) text texts h = (more, refl, sym (ok-injective h))
collected (err e) text texts h = absurd (cc h)

collect_texts-Distinct :
    (limit : ℤ) (seen raws texts : List String)
    → collect_texts limit seen raws ≡ ok texts
    → Distinct seen texts
unfolding collect_texts
collect_texts-Distinct limit seen [] texts h = rw (sym (ok-injective h)) tt
collect_texts-Distinct limit seen (raw ∷ rest) texts h =
    elim (Bool-cases (str_eq (trim_space raw) "")) [
      | inl blank ↦ collect_texts-Distinct limit seen rest texts (rw (blank, collect_texts) at h)
      | inr filled ↦ elim (Bool-cases (ltb_ℤ limit (pos (count (trim_space raw))))) [
        | inl long ↦ ground (arith, filled, long, h)
        | inr short ↦ elim (Bool-cases (contains (trim_space raw) seen)) [
          | inl repeated ↦ ground (arith, filled, short, repeated, h)
          | inr fresh ↦
              let (more, read, e) =
                collected (collect_texts limit (trim_space raw ∷ seen) rest) (trim_space raw) texts
                  (rw (filled, short, fresh, collect_texts) at h) in
              rw e (
                fresh,
                trim_space-HasInk raw (filled_text raw filled),
                collect_texts-Distinct limit (trim_space raw ∷ seen) rest more read,
              )
        ]
      ]
    ]

bind_ok :
    {A B : Type 0} (m : Result A) (f : A → Result B) (b : B)
    → (m >>= f) ≡ ok b
    → (a : A) × (m ≡ ok a) × (f a ≡ ok b)
bind_ok (ok a) f b h = (a, refl, h)
bind_ok (err e) f b h = absurd (cc h)

length-number_options :
    (new_id : ℕ → String) (position : ℕ) (texts : List String)
    → length (number_options new_id position texts) ≡ length texts
unfolding number_options
length-number_options new_id position [] = refl
length-number_options new_id position (text ∷ texts) =
    ap suc (length-number_options new_id (suc position) texts)

check_question-filled :
    (limit : ℤ) (raw question : String) → check_question limit raw ≡ ok question → HasInk question
unfolding check_question
check_question-filled limit raw question h = elim (Bool-cases (str_eq (trim_space raw) "")) [
  | inl blank ↦ ground (arith, blank, h)
  | inr filled ↦
      let same : trim_space raw ≡ question = ground (arith, filled, h) in
      rw (sym same) (trim_space-HasInk raw (filled_text raw filled))
]

check_type-valid : (given t : PollType) → check_type given ≡ ok t → valid_type t ≡ true
unfolding check_type
check_type-valid given t h = ground (arith, h)

check_size-within :
    (limit : ℤ) (texts : List String)
    → check_size limit texts ≡ ok tt
    → (2 ≤ length texts) × (pos (length texts) ≤ℤ limit)
unfolding check_size
check_size-within limit texts h = (ground (arith, h), ground (arith, h))

check_choices-within :
    (t : PollType) (given : ℤ) (size : ℕ) (n : ℤ)
    → valid_type t ≡ true
    → 2 ≤ size
    → check_choices t given size ≡ ok n
    → (pos 1 ≤ℤ n) × (n ≤ℤ pos size) × ((str_eq t single ≡ true) → n ≡ pos 1)
unfolding check_choices valid_type
check_choices-within t given size n valid s h =
    (ground (arith, valid, s, h), ground (arith, valid, s, h), λ one. ground (arith, one, h))

check_window-open :
    (starts_at ends_at : Option ℕ)
    → check_window starts_at ends_at ≡ ok tt
    → empty_window starts_at ends_at ≡ false
unfolding check_window
check_window-open starts_at ends_at h = ground (arith, h)

-- A new poll: a draft with the first identifier, no time of its end, a question, a known type, two options or more and no more than the limit,
-- whose texts are not blank and differ, a limit of choices that is in force as it stands, and a
-- window that is not empty.
pub record IsBuilt (limits : PollLimits) (new_id : ℕ → String) (poll : Poll) : Type 0 where
  pub is_draft : poll.status ≡ draft
  pub named : poll.id ≡ new_id 0
  pub unfinished : poll.finished_at ≡ none
  pub asked : HasInk poll.question
  pub known_type : valid_type poll.poll_type ≡ true
  pub texts : List String
  pub numbered : poll.options ≡ number_options new_id 0 texts
  pub distinct : Distinct [] texts
  pub least : 2 ≤ length poll.options
  pub most : pos (length poll.options) ≤ℤ limits.max_options
  pub effective : effective_max_choices poll ≡ poll.max_choices
  pub choices : (pos 1 ≤ℤ poll.max_choices) × (poll.max_choices ≤ℤ pos (length poll.options))
  pub window : empty_window poll.starts_at poll.ends_at ≡ false

built :
    (limits : PollLimits) (new_id : ℕ → String) (now : ℕ) (cmd : CreatePollCommand)
    → (question : String) (poll_type : PollType) (texts : List String) (n : ℤ)
    → check_question limits.max_question_length cmd.question ≡ ok question
    → check_type cmd.poll_type ≡ ok poll_type
    → collect_texts limits.max_option_length [] cmd.options ≡ ok texts
    → check_size limits.max_options texts ≡ ok tt
    → check_choices poll_type cmd.max_choices (length texts) ≡ ok n
    → check_window cmd.starts_at cmd.ends_at ≡ ok tt
    → IsBuilt limits new_id (record {
      id = new_id 0;
      question = question;
      poll_type = poll_type;
      max_choices = n;
      status = draft;
      options = number_options new_id 0 texts;
      created_at = now;
      starts_at = cmd.starts_at;
      ends_at = cmd.ends_at;
      finished_at = none;
    })
unfolding effective_max_choices
built limits new_id now cmd question poll_type texts n asked typed read sized chosen opened =
    let size = length-number_options new_id 0 texts in
    let within = check_size-within limits.max_options texts sized in
    let valid = check_type-valid cmd.poll_type poll_type typed in
    let (least, most, one) =
      check_choices-within poll_type cmd.max_choices (length texts) n valid within.0 chosen in
    record {
      is_draft = refl;
      named = refl;
      unfinished = refl;
      asked = check_question-filled limits.max_question_length cmd.question question asked;
      known_type = valid;
      texts = texts;
      numbered = refl;
      distinct = collect_texts-Distinct limits.max_option_length [] cmd.options texts read;
      least = rw size within.0;
      most = rw size within.1;
      effective = elim (Bool-cases (str_eq poll_type single)) [
        | inl alone ↦ rw alone (sym (one alone))
        | inr several ↦ rw (several, size) (ground (arith, least, most))
      ];
      choices = (least, rw size most);
      window = check_window-open cmd.starts_at cmd.ends_at opened;
    }

-- Every poll that `buildPoll` returns is a draft with a question that is not blank, which is to say
-- that some character of it is not white space, a known type, between two options and the limit, each
-- with a text of its own that is not blank, a number of
-- choices from one to the number of options that ballots are held to, and, if both ends of its
-- window are set, an end after its start.
pub build_poll-IsBuilt :
    (limits : PollLimits) (new_id : ℕ → String) (now : ℕ) (cmd : CreatePollCommand) (poll : Poll)
    → build_poll limits new_id now cmd ≡ ok poll
    → IsBuilt limits new_id poll
unfolding build_poll
build_poll-IsBuilt limits new_id now cmd poll h =
    let (question, asked, h₁) =
      bind_ok (check_question limits.max_question_length cmd.question) _ poll h in
    let (poll_type, typed, h₂) = bind_ok (check_type cmd.poll_type) _ poll h₁ in
    let (texts, read, h₃) =
      bind_ok (collect_texts limits.max_option_length [] cmd.options) _ poll h₂ in
    let (_, sized, h₄) = bind_ok (check_size limits.max_options texts) _ poll h₃ in
    let (n, chosen, h₅) =
      bind_ok (check_choices poll_type cmd.max_choices (length texts)) _ poll h₄ in
    let (_, opened, h₆) = bind_ok (check_window cmd.starts_at cmd.ends_at) _ poll h₅ in
    rw (sym (ok-injective h₆))
      (built limits new_id now cmd question poll_type texts n asked typed read sized chosen opened)
