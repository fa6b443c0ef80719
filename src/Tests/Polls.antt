-- ===== src/Tests/Polls.antt =====
-- A new poll at a concrete command (internal/service/poll.go).
use voting_service.Base.{ℕ, refl, String, none, [], ◌∷◌, trim_space, str_eq, contains, decimal}
use voting_service.Base.Int.{pos}
use voting_service.Entity.Poll.{Poll, draft, multiple, valid_type}
use voting_service.PollService.Build.{
  CreatePollCommand, check_question, check_type, collect_texts, check_size, check_choices,
  check_window, number_options, build_poll,
}
use voting_service.Tests.Samples.{limits}
use voting_service.PollService.Built.{IsBuilt, build_poll-IsBuilt}

-- Identifiers of an example, drawn in order.
abbrev drawn : ℕ → String
drawn n = decimal n

abbrev supper : CreatePollCommand
supper = record {
  question = " supper? ";
  poll_type = multiple;
  max_choices = pos 0;
  options = "soup" ∷ " " ∷ " rice " ∷ [];
  starts_at = none;
  ends_at = none;
}

abbrev supper_poll : Poll
supper_poll = record {
  id = drawn 0;
  question = "supper?";
  poll_type = multiple;
  max_choices = pos 2;
  status = draft;
  options =
      record { id = drawn 1; text = "soup"; position = 0 }
      ∷ record { id = drawn 2; text = "rice"; position = 1 }
      ∷ [];
  created_at = 7;
  starts_at = none;
  ends_at = none;
  finished_at = none;
}

build_poll-IsBuilt_example : IsBuilt limits drawn supper_poll
unfolding build_poll check_question check_type collect_texts check_size check_choices check_window
    number_options trim_space str_eq contains valid_type
build_poll-IsBuilt_example = build_poll-IsBuilt limits drawn 7 supper supper_poll refl
