-- ===== src/Tests/Repository.antt =====
-- The repository (internal/repository/poll.go) on concrete tables.
use voting_service.Base.{
  String, Bool, true, ◌≡◌, refl, Option, none, some, [], ◌∷◌, decimal, str_eq, contains, trim_space,
}
use voting_service.Base.Int.{pos}
use voting_service.Entity.Errors.{Result, ok, foreign}
use voting_service.Entity.Poll.{Poll, draft, active, finished, valid_type, valid_status}
use voting_service.Ports.{Counts, VoteStore, PollLoader, verdict_allow}
use voting_service.Redis.{up, reply_lost}
use voting_service.PollService.Build.{
  PollLimits, CreatePollCommand, build_poll, check_question, check_type, collect_texts, check_size,
  check_choices, check_window, number_options,
}
use voting_service.PollService.Polls.{create, transition, insert_all, then_rollback}
use voting_service.Repository.Tables.{
  PollRow, no_rows, add_poll, add_option, add_result, add_rows, has_poll, has_option, has_position,
  has_result, poll_ok, not_blank, to_micros, maybe_micros,
}
use voting_service.Repository.Queries.{upsert_all, upsert, raise_votes, poll_row, option_rows}
use voting_service.Repository.Created.{kept, get_poll-create}
use voting_service.Repository.Poll.{
  exec, Db, closed, begin_tx, commit, rollback, tx_commit, insert_poll, insert_poll_options,
  insert_zero_results, insert_rows, after_insert, failing, staged_poll, staged_options,
  staged_results, zero_row,
}
use voting_service.Repository.Saved.{Grown, AllReached, save_results-AllReached}
use voting_service.Repository.Calls.{save_results, run_upsert, calling, repository, get_poll}
use voting_service.Repository.Create.{AllOrNothing, create-AllOrNothing}
use voting_service.Repository.History.{Reach, activated, ended, here, further}

abbrev any_text : String → Option String
any_text id = some id

abbrev accepts : String → Bool
accepts id = true

abbrev votes : VoteStore Db
votes = record {
  guard = λ q w. (ok verdict_allow, w);
  cast_ballot = λ b w. (ok tt, w);
  counters = λ p ids w. (ok [], w);
  track_poll = λ p w. (ok tt, w);
  tracked_polls = λ w. (ok [], w);
  untrack_poll = λ p w. (ok tt, w);
  ping = λ w. (ok tt, w);
}

abbrev polls : PollLoader Db
polls = record { poll = get_poll any_text; invalidate = λ id w. (ok tt, w) }

abbrev limits : PollLimits
limits = record {
  max_question_length = pos 100;
  max_option_length = pos 50;
  max_options = pos 5;
  max_page_size = pos 100;
  default_page_size = pos 20;
}

abbrev lunch : CreatePollCommand
lunch = record {
  question = "Lunch?";
  poll_type = "single";
  max_choices = pos 0;
  options = "Soup" ∷ "Salad" ∷ [];
  starts_at = none;
  ends_at = none;
}

-- The reply to the commit is lost.
abbrev cut : Db
cut = record {
  tables = no_rows;
  session = closed;
  links = up ∷ up ∷ up ∷ up ∷ reply_lost (foreign "connection reset") ∷ [];
}

create-AllOrNothing_example :
    AllOrNothing any_text accepts votes polls limits
      (build_poll limits decimal 5000 lunch)
      cut
      (create accepts (repository any_text) votes polls limits decimal 5000 lunch cut)
create-AllOrNothing_example =
    create-AllOrNothing any_text accepts votes polls limits decimal 5000 lunch cut refl

abbrev lunch_row : PollRow
lunch_row = record {
  id = "0";
  question = "Lunch?";
  poll_type = "single";
  max_choices = pos 1;
  status = draft;
  created_at = 5000;
  starts_at = none;
  ends_at = none;
  finished_at = none;
}

abbrev drafted : Db
drafted = record {
  tables = record { polls = lunch_row ∷ []; options = []; results = [] };
  session = closed;
  links = [];
}

abbrev open_db : Db
open_db =
    (transition accepts (repository any_text) votes polls limits 6000 "0" (draft ∷ []) active
      drafted).1

abbrev over_db : Db
over_db =
    (transition accepts (repository any_text) votes polls limits 7000 "0" (draft ∷ active ∷ [])
      finished open_db).1

abbrev steps : Reach any_text accepts votes polls limits drafted over_db
steps =
    further drafted open_db over_db (activated 6000 "0" drafted)
      (further open_db over_db over_db (ended 7000 "0" open_db) (here over_db))

abbrev empty_db : Db
empty_db = record { tables = no_rows; session = closed; links = [] }

abbrev lunch_poll : Poll
lunch_poll = record {
  id = decimal 0;
  question = "Lunch?";
  poll_type = "single";
  max_choices = pos 1;
  status = draft;
  options =
      record { id = decimal 1; text = "Soup"; position = 0 }
      ∷ record { id = decimal 2; text = "Salad"; position = 1 }
      ∷ [];
  created_at = 5000;
  starts_at = none;
  ends_at = none;
  finished_at = none;
}

abbrev lunch_created : Result Poll × Db
lunch_created = create accepts (repository any_text) votes polls limits decimal 5000 lunch empty_db

lunch_ok : lunch_created.0 ≡ ok lunch_poll
unfolding create insert_all then_rollback build_poll check_question check_type collect_texts
    check_size check_choices check_window number_options trim_space str_eq contains valid_type
    valid_status begin_tx commit rollback tx_commit insert_poll insert_poll_options
    insert_zero_results insert_rows after_insert failing staged_poll staged_options staged_results
    zero_row poll_row option_rows add_poll add_option add_result add_rows has_poll has_option
    has_position has_result poll_ok not_blank to_micros maybe_micros decimal
lunch_ok = refl

abbrev afterwards : Db
afterwards = record { tables = lunch_created.1.tables; session = closed; links = [] }

get_poll-create_example : (get_poll any_text (decimal 0) afterwards).0 ≡ ok (kept lunch_poll)
get_poll-create_example =
    get_poll-create any_text decimal (λ k. refl) accepts votes polls limits 5000 lunch empty_db
      afterwards lunch_poll refl tt lunch_ok refl refl

-- Five votes for an option that has three.
abbrev counted_db : Db
counted_db = record {
  tables = record {
    polls = lunch_row ∷ [];
    options = record { id = "1"; poll_id = "0"; text = "Soup"; position = 0 } ∷ [];
    results = record { poll_id = "0"; option_id = "1"; votes = pos 3 } ∷ [];
  };
  session = closed;
  links = [];
}

abbrev five : Counts
five = ("1", pos 5) ∷ []

five_saved : (save_results any_text "0" five counted_db).0 ≡ ok tt
unfolding save_results run_upsert upsert_all upsert calling exec failing has_poll has_option
    has_result raise_votes contains str_eq
five_saved = refl

save_results-AllReached_example :
    Grown counted_db.tables.results (save_results any_text "0" five counted_db).1.tables.results
    × AllReached any_text "0" five (save_results any_text "0" five counted_db).1.tables.results
save_results-AllReached_example =
    save_results-AllReached any_text "0" "0" five counted_db refl five_saved
