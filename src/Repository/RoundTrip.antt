-- ===== src/Repository/RoundTrip.antt =====
-- What `GetPoll` (internal/repository/poll.go) reads of a poll that was inserted.
use mathlib.Core.List.{append-nil, append_assoc}
use voting_service.Base.{
  ℕ, suc, ◌<◌, String, true, false, ◌≡◌, refl, sym, ap, ◌∙◌, inl, inr, Option, none, some, List, [],
  ◌∷◌, ◌++◌, map, str_eq, str_eq_refl, str_eq_iff, Bool-cases, arith,
}
use voting_service.Entity.Poll.{Poll, PollOption}
use voting_service.PollService.Build.{number_options}
use voting_service.Repository.Tables.{PollRow, OptionRow, Tables, has_poll, place, order_by}
use voting_service.Repository.Queries.{
  header, option_of, option_before, options_of, beside, joined, add_row, scan_poll, option_rows,
}

-- `poll_id UUID NOT NULL REFERENCES polls (id)`: the poll of each option is there.
abbrev pub AllReferenced : List PollRow → List OptionRow → Type 0
AllReferenced polls [] = Unit
AllReferenced polls (o ∷ options) = (has_poll o.poll_id polls ≡ true) × AllReferenced polls options

options_of-none :
    (id : String) (polls : List PollRow) (options : List OptionRow)
    → AllReferenced polls options
    → has_poll id polls ≡ false
    → options_of id options ≡ []
unfolding options_of
options_of-none id polls [] known fresh = refl
options_of-none id polls (o ∷ options) (here, known) fresh =
    elim (Bool-cases (str_eq o.poll_id id)) [
      | inl same ↦
          let e = ap (λ k. has_poll k polls) ((str_eq_iff o.poll_id id).0 same) in
          cc (e, here, fresh)
      | inr other ↦ rw other (options_of-none id polls options known fresh)
    ]

options_of-append :
    (id : String) (xs ys : List OptionRow)
    → options_of id (xs ++ ys) ≡ options_of id xs ++ options_of id ys
unfolding options_of
options_of-append id [] ys = refl
options_of-append id (x ∷ xs) ys = grind (arith, options_of-append id xs ys)

-- The rows of options whose identifiers are canonical.
abbrev pub plain : String → List PollOption → List OptionRow
plain id = map (λ o. record { id = o.id; poll_id = id; text = o.text; position = o.position })

options_of-plain :
    (id : String) (options : List PollOption) → options_of id (plain id options) ≡ plain id options
unfolding options_of
options_of-plain id [] = refl
options_of-plain id (o ∷ options) = rw (str_eq_refl id, options_of-plain id options) refl

option_of-plain :
    (id : String) (options : List PollOption) → map option_of (plain id options) ≡ options
unfolding option_of
option_of-plain id [] = refl
option_of-plain id (o ∷ options) = ap (λ r. o ∷ r) (option_of-plain id options)

later-not-before : (a b : OptionRow) → b.position < a.position → option_before a b ≡ false
later-not-before a b h = ground (arith, h)

-- Options that are numbered in turn are in order.
order_by-numbered :
    (id : String) (new_id : ℕ → String) (n : ℕ) (texts : List String)
    → order_by option_before (plain id (number_options new_id n texts))
      ≡ plain id (number_options new_id n texts)
unfolding order_by number_options place
order_by-numbered id new_id n [] = refl
order_by-numbered id new_id n (text ∷ []) = refl
order_by-numbered id new_id n (text ∷ more ∷ texts) =
    ap (place option_before _) (order_by-numbered id new_id (suc n) (more ∷ texts))
    ∙ rw
        (later-not-before
          (record { id = new_id (suc (suc n)); poll_id = id; text = more; position = suc n })
          (record { id = new_id (suc n); poll_id = id; text = text; position = n }) (omega arith))
        refl

-- Numbered identifiers that are canonical are read as they are.
pub option_rows-numbered :
    (uuid : String → Option String) (id : String) (new_id : ℕ → String) (n : ℕ)
    (texts : List String)
    → ((k : ℕ) → uuid (new_id k) ≡ some (new_id k))
    → option_rows uuid id (number_options new_id n texts)
      ≡ some (plain id (number_options new_id n texts))
unfolding option_rows number_options
option_rows-numbered uuid id new_id n [] canonical = refl
option_rows-numbered uuid id new_id n (text ∷ texts) canonical =
    rw (canonical (suc n), option_rows-numbered uuid id new_id (suc n) texts canonical) refl

-- The row of a poll that was not there is the last one of the join.
joined-last :
    (id : String) (t : Tables) (row : PollRow) (rows : List PollRow)
    → has_poll id rows ≡ false
    → row.id ≡ id
    → joined id t (rows ++ row ∷ []) ≡ beside row (order_by option_before (options_of id t.options))
unfolding joined has_poll
joined-last id t row [] fresh same =
    let hit = (str_eq_iff row.id id).1 same in rw (hit) (append-nil _)
joined-last id t row (r ∷ rows) fresh same =
    let other : str_eq r.id id ≡ false = ground (arith, fresh) in
    rw other (joined-last id t row rows (ground (arith, fresh)) same)

scan_poll-options :
    (poll : Poll) (row : PollRow) (options : List OptionRow)
    → scan_poll (some poll) (map (λ o. (row, some o)) options)
      ≡ some (record poll { options = poll.options ++ map option_of options })
unfolding scan_poll add_row
scan_poll-options poll row [] =
    ap (λ o. some (record poll { options = o })) (sym (append-nil poll.options))
scan_poll-options poll row (o ∷ options) =
    scan_poll-options (record poll { options = poll.options ++ option_of o ∷ [] }) row options
    ∙ ap (λ o. some (record poll { options = o }))
        (append_assoc poll.options (option_of o ∷ []) (map option_of options))

-- The loop of `GetPoll` over the rows of one poll.
scan_poll-beside :
    (row : PollRow) (options : List OptionRow)
    → scan_poll none (beside row options)
      ≡ some (record (header row) { options = map option_of options })
unfolding scan_poll add_row beside header
scan_poll-beside row [] = refl
scan_poll-beside row (o ∷ options) =
    scan_poll-options (record (header row) { options = option_of o ∷ [] }) row options

-- All the rows of a new poll that `GetPoll` reads.
pub scan_poll-new :
    (t u : Tables) (row : PollRow) (new_id : ℕ → String) (texts : List String)
    → u.options ≡ t.options ++ plain row.id (number_options new_id 0 texts)
    → AllReferenced t.polls t.options
    → has_poll row.id t.polls ≡ false
    → scan_poll none (joined row.id u (t.polls ++ row ∷ []))
      ≡ some (record (header row) { options = number_options new_id 0 texts })
scan_poll-new t u row new_id texts added known fresh =
    let id = row.id in
    let options = number_options new_id 0 texts in
    let own =
      ap (options_of id) added
      ∙ (options_of-append id t.options (plain id options)
          ∙ (ap (λ o. o ++ options_of id (plain id options))
                (options_of-none id t.polls t.options known fresh)
              ∙ options_of-plain id options)) in
    ap (scan_poll none) (joined-last id u row t.polls fresh refl)
    ∙ (ap (λ o. scan_poll none (beside row o))
          (ap (order_by option_before) own ∙ order_by-numbered id new_id 0 texts)
        ∙ (scan_poll-beside row (plain id options)
            ∙ ap (λ o. some (record (header row) { options = o })) (option_of-plain id options)))
