-- ===== src/Tests/Samples.antt =====
-- A poll, ballots and a configuration for the examples.
use voting_service.Base.{ℕ, String, none, some, [], ◌∷◌}
use voting_service.Base.Int.{pos}
use voting_service.Entity.Poll.{Poll, active, multiple}
use voting_service.Ports.{Ballot, GuardRequest}
use voting_service.PollService.Build.{PollLimits}
use voting_service.VoteStore.Store.{Config}
use voting_service.VoteService.Cast.{VoteCommand}

abbrev pub lunch : Poll
lunch = record {
  id = "p1";
  question = "lunch?";
  poll_type = multiple;
  max_choices = pos 2;
  status = active;
  options =
      record { id = "a"; text = "soup"; position = 0 }
      ∷ record { id = "b"; text = "rice"; position = 1 }
      ∷ record { id = "c"; text = "fish"; position = 2 }
      ∷ [];
  created_at = 1;
  starts_at = some 10;
  ends_at = some 20;
  finished_at = none;
}

abbrev pub two_shards : Config
two_shards = record {
  shards = 2;
  dedup_ttl = 60_000_000_000;
  counter_retention = 60_000_000_000;
  rate_limit = 3;
  rate_window = 60_000_000_000;
  poll_quota = 0;
  poll_quota_window = 60_000_000_000;
}

abbrev pub checksum_of : String → ℕ
checksum_of h = 5

abbrev pub soup_and_rice : Ballot
soup_and_rice = record { poll_id = "p1"; voter_hash = "h"; option_ids = "a" ∷ "b" ∷ [] }

abbrev pub knock : GuardRequest
knock = record { client_ip = "10.0.0.1"; poll_id = "p1" }

abbrev pub vote : VoteCommand
vote = record {
  poll_id = "p1";
  option_ids = "a" ∷ "b" ∷ [];
  voter_token = "token";
  client_ip = "10.0.0.1";
}

abbrev pub limits : PollLimits
limits = record {
  max_question_length = pos 300;
  max_option_length = pos 120;
  max_options = pos 10;
  max_page_size = pos 100;
  default_page_size = pos 20;
}
