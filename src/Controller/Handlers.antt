-- ===== src/Controller/Handlers.antt =====
-- The handlers of the API (internal/controller/handlers.go). What encoding/json makes of a body, of
-- which a limit may be set, is a parameter; the time of `h.now()` is an argument.
use Prim.Native.String.{◌++◌ as ◌<>◌}
use voting_service.Base.{
  ℕ, ◌*◌, ◌/◌, String, Option, none, some, map, if◌then◌else◌, str_eq, decimal, parse_int,
}
use voting_service.Base.Int.{ℤ, pos, ltb_ℤ}
use voting_service.Entity.Errors.{Result, ok, err, new_error, wrap_error, invalid_request, foreign}
use voting_service.Entity.Poll.{Poll}
use voting_service.Ports.{Action}
use voting_service.Health.{Report}
use voting_service.HttpJson.{
  Context, Writer, value, Decoded, decode_json, set_header, write_json, write_error,
}
use voting_service.Middleware.Chain.{Handler}
use voting_service.PollService.Build.{CreatePollCommand}
use voting_service.PollService.Polls.{Results, PollPage}
use voting_service.VoteService.Cast.{VoteCommand}
use voting_service.Controller.Dto.{
  PollResponse, new_poll_response, PollListResponse, CreatePollRequest, to_command, VoteRequest,
  ResultsResponse, new_results_response,
}

-- `Polls` and `Votes`.
pub record Polls (W : Type 0) : Type 0 where
  pub create : CreatePollCommand → Action W Poll
  pub get : String → Action W Poll
  pub list : ℤ → ℤ → Action W PollPage
  pub activate : String → Action W Poll
  pub finish : String → Action W Poll
  pub results : String → Action W Results

pub record Votes (W : Type 0) : Type 0 where
  pub cast : VoteCommand → Action W (Unit {0})

-- The values that the endpoints and the probes return.
pub data Answer (Float : Type 0) : Type 0 where
  poll_answer : PollResponse → Answer Float
  page_answer : PollListResponse → Answer Float
  vote_answer : String → Answer Float
  results_answer : ResultsResponse Float → Answer Float
  live_answer : String → Answer Float
  ready_answer : Report → Answer Float

-- `intQuery`.
unfoldable pub int_query : String → String → ℤ → Result ℤ
int_query name raw fallback = if str_eq raw "" then ok fallback else elim (parse_int raw) [
  | none ↦ err (wrap_error invalid_request (foreign "strconv.Atoi") (name <> " must be an integer"))
  | some n ↦
      if ltb_ℤ n (pos 0)
      then err (new_error invalid_request (name <> " must not be negative"))
      else ok n
]

module _ {W Float : Type 0} where
  -- `if err != nil { httpjson.WriteError(…); return }`, and the response to a value.
  unfoldable pub respond :
      {A : Type 0}
      → (A → Writer (Answer Float) → Writer (Answer Float))
      → Context
      → Writer (Answer Float)
      → Result A × W
      → Writer (Answer Float) × W
  respond answer ctx w (ok a, world) = (answer a w, world)
  respond answer ctx w (err e, world) = (write_error ctx e w, world)

  module _ (polls : Polls W) (votes : Votes W) where
    -- `GetPoll`; the time to live is in nanoseconds.
    unfoldable pub get_poll : ℕ → String → Handler (Answer Float) W
    get_poll poll_cache_ttl poll_id r (w, world) =
        let max_age = poll_cache_ttl / 1_000_000_000 in
        respond
          (λ poll w. write_json 200 (value (poll_answer (new_poll_response poll))) (
            set_header "Cache-Control"
              ("public, max-age="
                <> (decimal max_age <> (", stale-while-revalidate=" <> decimal (max_age * 2))))
              w))
          r.ctx w (polls.get poll_id world)

    -- `CastVote`.
    unfoldable pub cast_vote :
        (Option ℕ → String → Decoded VoteRequest) → String → Handler (Answer Float) W
    cast_vote read_vote poll_id r (w, world) = elim (decode_json (read_vote r.limit r.body)) [
      | err e ↦ (write_error r.ctx e w, world)
      | ok request ↦
          respond (λ _ w. write_json 201 (value (vote_answer "accepted")) w) r.ctx w
            (votes.cast
              (record {
                poll_id = poll_id;
                option_ids = request.option_ids;
                voter_token = r.ctx.voter_token;
                client_ip = r.ctx.client_ip;
              })
              world)
    ]

    -- `CreatePoll`.
    unfoldable pub create_poll :
        (Option ℕ → String → Decoded CreatePollRequest) → Handler (Answer Float) W
    create_poll read_poll r (w, world) = elim (decode_json (read_poll r.limit r.body)) [
      | err e ↦ (write_error r.ctx e w, world)
      | ok request ↦
          respond (λ poll w. write_json 201 (value (poll_answer (new_poll_response poll))) w) r.ctx
            w (polls.create (to_command request) world)
    ]

    -- `ListPolls`.
    unfoldable pub list_polls : Handler (Answer Float) W
    list_polls r (w, world) = elim (int_query "limit" (r.query "limit") (pos 0)) [
      | err e ↦ (write_error r.ctx e w, world)
      | ok limit ↦ elim (int_query "offset" (r.query "offset") (pos 0)) [
        | err e ↦ (write_error r.ctx e w, world)
        | ok offset ↦
            respond
              (λ page w.
                write_json 200
                  (value (
                    page_answer (record {
                      items = map new_poll_response page.items;
                      total = page.total;
                      limit = page.limit;
                      offset = page.offset;
                    })))
                  w)
              r.ctx w (polls.list limit offset world)
      ]
    ]

    -- `ActivatePoll` and `FinishPoll`.
    unfoldable pub activate_poll : String → Handler (Answer Float) W
    activate_poll poll_id r (w, world) =
        respond (λ poll w. write_json 200 (value (poll_answer (new_poll_response poll))) w) r.ctx w
          (polls.activate poll_id world)

    unfoldable pub finish_poll : String → Handler (Answer Float) W
    finish_poll poll_id r (w, world) =
        respond (λ poll w. write_json 200 (value (poll_answer (new_poll_response poll))) w) r.ctx w
          (polls.finish poll_id world)

    -- `GetResults`.
    unfoldable pub get_results : Float → (ℤ → ℤ → Float) → ℕ → String → Handler (Answer Float) W
    get_results zero_float ratio now poll_id r (w, world) =
        respond
          (λ results w.
            write_json 200
              (value (results_answer (new_results_response zero_float ratio results now)))
              (set_header "Cache-Control" "no-store" w))
          r.ctx w (polls.results poll_id world)
