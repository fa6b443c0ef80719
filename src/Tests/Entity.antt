-- ===== src/Tests/Entity.antt =====
-- The checks of a ballot at a concrete poll (internal/entity/poll.go).
use voting_service.Base.{str_eq, contains, [], ◌∷◌, ◌≡◌, ◌↔◌, refl}
use voting_service.Entity.Errors.{ok, code_of, new_error, invalid_request, conflict}
use voting_service.Entity.Poll.{
  validate_ballot, check_options, effective_max_choices, check_open_at,
}
use voting_service.Entity.Ballot.{IsBallot, validate_ballot-IsBallot, validate_ballot_refusal}
use voting_service.Entity.Window.{IsOpenAt, check_open_at-IsOpenAt, check_open_at_refusal}
use voting_service.Tests.Samples.{lunch}

validate_ballot-IsBallot_example :
    (validate_ballot lunch ("b" ∷ "a" ∷ []) ≡ ok tt) ↔ IsBallot lunch ("b" ∷ "a" ∷ [])
validate_ballot-IsBallot_example = validate_ballot-IsBallot lunch ("b" ∷ "a" ∷ [])

validate_ballot_refusal_example :
    code_of (new_error invalid_request "duplicate option in ballot") ≡ invalid_request
unfolding validate_ballot check_options effective_max_choices str_eq contains
validate_ballot_refusal_example =
    validate_ballot_refusal lunch ("a" ∷ "a" ∷ [])
      (new_error invalid_request "duplicate option in ballot") refl

check_open_at-IsOpenAt_example : (check_open_at lunch 15 ≡ ok tt) ↔ IsOpenAt lunch 15
check_open_at-IsOpenAt_example = check_open_at-IsOpenAt lunch 15

check_open_at_refusal_example : code_of (new_error conflict "voting has ended") ≡ conflict
unfolding check_open_at str_eq
check_open_at_refusal_example =
    check_open_at_refusal lunch 20 (new_error conflict "voting has ended") refl
