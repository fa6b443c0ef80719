-- ===== src/Controller/Casting.antt =====
-- A ballot's way through the middleware (internal/controller/router.go,
-- internal/controller/handlers.go).
use mathlib.Core.Path.{subst}
use voting_service.Base.{
  ℕ, String, Bool, true, false, ◌≡◌, refl, sym, ap, none, some, if◌then◌else◌, str_eq,
}
use voting_service.Entity.Errors.{Result, ok, err, code_of}
use voting_service.HttpJson.{
  head_status, Writer, value, decoded, no_response, sent_status, status_for, set_header, write_json,
  write_error, decode_json,
}
use voting_service.Middleware.Identity.{resolve_client_ip, sanitize_token}
use voting_service.Middleware.Chain.{Request, voter_cookie}
use voting_service.VoteService.Cast.{VoteCommand}
use voting_service.Controller.Dto.{VoteRequest}
use voting_service.Controller.Handlers.{Polls, Votes, Answer, vote_answer, respond, cast_vote}
use voting_service.Controller.Answers.{
  write_json-sent, IsFresh, set_header-IsFresh, sent-write_error, headed-IsFresh, seen, headed,
}
use voting_service.Controller.Router.{cast_route, RouterConfig, Draws, endpoint, new_router}
use voting_service.Controller.Gate.{new_router-endpoint}

-- The status of a ballot's answer.
unfoldable pub vote_status : Result (Unit {0}) → ℕ
vote_status (ok _) = 201
vote_status (err e) = status_for (code_of e)

-- What the service returns is what the response says.
unfoldable pub Reports :
    {W Float : Type 0} → Result (Unit {0}) × W → Writer (Answer Float) × W → Type 0
Reports called served = (served.1 ≡ called.1) × (sent_status served.0 ≡ some (vote_status called.0))

module _ {W Float : Type 0} (cfg : RouterConfig W Float) (polls : Polls W) (votes : Votes W) where
  -- The token of the request's cookie, if it is well formed, or a new one.
  unfoldable pub token_of : Draws → Request → String
  token_of draws r =
      let given = elim (r.cookie cfg.cookie_name) as (λ _. String) [
        | none ↦ ""
        | some raw ↦ sanitize_token cfg.decodes raw
      ] in
      if str_eq given "" then draws.voter_token else given

  abbrev pub command_of : Draws → String → Request → VoteRequest → VoteCommand
  command_of draws id r request = record {
    poll_id = id;
    option_ids = request.option_ids;
    voter_token = token_of draws r;
    client_ip =
        resolve_client_ip cfg.netip cfg.split_host_port cfg.trusted_proxies r.remote_addr
          (r.header "X-Forwarded-For");
  }

  respond-Reports :
      (r : Request) (w : Writer (Answer Float)) (called : Result (Unit {0}) × W)
      → IsFresh w
      → Reports called
          (respond (λ _ w. write_json 201 (value (vote_answer "accepted")) w) r.ctx w called)
  unfolding Reports respond vote_status
  respond-Reports r w (ok _, world) fresh =
      (refl, ap head_status ((write_json-sent 201 (value (vote_answer "accepted")) w fresh).0.1))
  respond-Reports r w (err e, world) fresh = (refl, sent-write_error r.ctx w e fresh)

  cast_vote-Reports :
      (id : String) (r : Request) (w : Writer (Answer Float)) (world : W) (request : VoteRequest)
      → IsFresh w
      → cfg.read_vote r.limit r.body ≡ decoded request
      → Reports
          (votes.cast
            (record {
              poll_id = id;
              option_ids = request.option_ids;
              voter_token = r.ctx.voter_token;
              client_ip = r.ctx.client_ip;
            })
            world)
          (cast_vote polls votes cfg.read_vote id r (w, world))
  unfolding cast_vote decode_json
  cast_vote-Reports id r w world request fresh read =
      subst
        (λ d.
          Reports
            (votes.cast
              (record {
                poll_id = id;
                option_ids = request.option_ids;
                voter_token = r.ctx.voter_token;
                client_ip = r.ctx.client_ip;
              })
              world)
            (elim (decode_json {A = VoteRequest} d) as (λ _. Writer (Answer Float) × W) [
              | err e ↦ (write_error r.ctx e w, world)
              | ok request ↦
                  respond (λ _ w. write_json 201 (value (vote_answer "accepted")) w) r.ctx w
                    (votes.cast
                      (record {
                        poll_id = id;
                        option_ids = request.option_ids;
                        voter_token = r.ctx.voter_token;
                        client_ip = r.ctx.client_ip;
                      })
                      world)
            ]))
        (sym read) (respond-Reports r w _ fresh)

  endpoint-Reports :
      (draws : Draws) (id : String) (r : Request) (w : Writer (Answer Float)) (world : W)
      (request : VoteRequest)
      → IsFresh w
      → cfg.read_vote r.limit r.body ≡ decoded request
      → Reports
          (votes.cast
            (record {
              poll_id = id;
              option_ids = request.option_ids;
              voter_token = token_of draws r;
              client_ip = r.ctx.client_ip;
            })
            world)
          (endpoint cfg polls votes draws (cast_route id) r (w, world))
  unfolding endpoint voter_cookie token_of
  endpoint-Reports draws id r w world request fresh read = by_token (str_eq given "")
    where
      given : String
      given = elim (r.cookie cfg.cookie_name) as (λ _. String) [
        | none ↦ ""
        | some raw ↦ sanitize_token cfg.decodes raw
      ]

      by_token :
          (drawn : Bool)
          → Reports
              (votes.cast
                (record {
                  poll_id = id;
                  option_ids = request.option_ids;
                  voter_token = (if drawn then draws.voter_token else given);
                  client_ip = r.ctx.client_ip;
                })
                world)
              (if drawn
                then cast_vote polls votes cfg.read_vote id
                    (record r { ctx = record r.ctx { voter_token = draws.voter_token } })
                    (set_header "Set-Cookie" (cfg.cookie_text draws.voter_token) w, world)
                else cast_vote polls votes cfg.read_vote id
                    (record r { ctx = record r.ctx { voter_token = given } })
                    (w, world))
      by_token true = cast_vote-Reports id _ _ world request (set_header-IsFresh _ _ w fresh) read
      by_token false = cast_vote-Reports id _ w world request fresh read

  -- A ballot whose body decodes within the limit reaches the vote service with the poll of the path,
  -- the client's address as it is resolved, never a header as it stands, and the voter's token of the
  -- cookie or a new one. The world is as the service leaves it, and the status is 201 where the
  -- service accepts, and the one of the error's code otherwise.
  pub new_router-cast :
      (draws : Draws) (id : String) (r : Request) (world : W) (request : VoteRequest)
      → cfg.read_vote (some cfg.max_request_bytes) r.body ≡ decoded request
      → Reports
          (votes.cast (command_of draws id r request) world)
          (new_router cfg polls votes draws (cast_route id) r (no_response, world))
  unfolding token_of
  new_router-cast draws id r world request read =
      subst (Reports (votes.cast (command_of draws id r request) world))
        (sym (new_router-endpoint cfg polls votes draws (cast_route id) r world))
        (endpoint-Reports draws id (seen cfg draws r) (headed cfg draws r) world request
          (headed-IsFresh cfg draws r) read)
