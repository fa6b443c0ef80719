-- ===== src/Controller/Dto.antt =====
-- Requests and responses of the API (internal/controller/dto.go). `percentage` computes with floating
-- point: its type and its division are parameters.
use voting_service.Base.{ℕ, String, Option, List, [], ◌∷◌, map, if◌then◌else◌}
use voting_service.Base.Int.{ℤ, pos, leb_ℤ}
use voting_service.Entity.Poll.{Poll, PollOption}
use voting_service.PollService.Build.{CreatePollCommand}
use voting_service.PollService.Polls.{Results, count_at}

pub record OptionResponse : Type 0 where
  pub id : String
  pub text : String
  pub position : ℕ

pub record PollResponse : Type 0 where
  pub id : String
  pub question : String
  pub poll_type : String
  pub max_choices : ℤ
  pub status : String
  pub options : List OptionResponse
  pub created_at : ℕ
  pub starts_at : Option ℕ
  pub ends_at : Option ℕ
  pub finished_at : Option ℕ

-- `newPollResponse`, and its loop.
unfoldable pub option_response : PollOption → OptionResponse
option_response o = record { id = o.id; text = o.text; position = o.position }

unfoldable pub new_poll_response : Poll → PollResponse
new_poll_response poll = record {
  id = poll.id;
  question = poll.question;
  poll_type = poll.poll_type;
  max_choices = poll.max_choices;
  status = poll.status;
  options = map option_response poll.options;
  created_at = poll.created_at;
  starts_at = poll.starts_at;
  ends_at = poll.ends_at;
  finished_at = poll.finished_at;
}

pub record PollListResponse : Type 0 where
  pub items : List PollResponse
  pub total : ℕ
  pub limit : ℤ
  pub offset : ℤ

pub record CreatePollRequest : Type 0 where
  pub question : String
  pub poll_type : String
  pub max_choices : ℤ
  pub options : List String
  pub starts_at : Option ℕ
  pub ends_at : Option ℕ

-- `toCommand`.
unfoldable pub to_command : CreatePollRequest → CreatePollCommand
to_command r = record {
  question = r.question;
  poll_type = r.poll_type;
  max_choices = r.max_choices;
  options = r.options;
  starts_at = r.starts_at;
  ends_at = r.ends_at;
}

pub record VoteRequest : Type 0 where
  pub option_ids : List String

pub record OptionResultResponse (Float : Type 0) : Type 0 where
  pub id : String
  pub text : String
  pub votes : ℤ
  pub percentage : Float

pub record ResultsResponse (Float : Type 0) : Type 0 where
  pub poll_id : String
  pub question : String
  pub status : String
  pub total_votes : ℤ
  pub options : List (OptionResultResponse Float)
  pub generated_at : ℕ

module _ {Float : Type 0} (zero_float : Float) (ratio : ℤ → ℤ → Float) where
  -- `percentage`; `ratio` is the rounded quotient.
  unfoldable pub percentage : ℤ → ℤ → Float
  percentage votes total = if leb_ℤ total (pos 0) then zero_float else ratio votes total

  -- The loop of `newResultsResponse`.
  unfoldable pub option_results : Results → List PollOption → List (OptionResultResponse Float)
  option_results results [] = []
  option_results results (o ∷ options) =
      let votes = count_at o.id results.counts in
      record {
        id = o.id;
        text = o.text;
        votes = votes;
        percentage = percentage votes results.total;
      }
      ∷ option_results results options

  unfoldable pub new_results_response : Results → ℕ → ResultsResponse Float
  new_results_response results generated_at = record {
    poll_id = results.poll.id;
    question = results.poll.question;
    status = results.poll.status;
    total_votes = results.total;
    options = option_results results results.poll.options;
    generated_at = generated_at;
  }
