-- ===== src/Controller/OneResponse.antt =====
-- One response for every request (internal/controller/router.go).
use mathlib.Core.Path.{subst}
use voting_service.Base.{
  String, Bool, true, false, not, refl, sym, arith, Option, inl, inr, none, some, if◌then◌else◌,
  str_eq, bytes,
}
use voting_service.Base.Int.{pos}
use voting_service.Entity.Errors.{Result, ok, err, new_error, unauthorized}
use voting_service.Health.{Report, ready_status}
use voting_service.HttpJson.{
  Context, Writer, value, no_response, set_header, write_json, write_error, decode_json,
}
use voting_service.Middleware.Identity.{sanitize_token}
use voting_service.Middleware.Chain.{
  Request, Handler, first_value, bearer_token, bytes_eq, voter_cookie, admin_auth,
}
use voting_service.Controller.Handlers.{
  Polls, Votes, Answer, vote_answer, live_answer, ready_answer, int_query, respond, get_poll,
  cast_vote, create_poll, list_polls, activate_poll, finish_poll, get_results,
}
use voting_service.Controller.Answers.{
  IsFresh, IsAnswered, HasStatus, write_error-IsAnswered, respond-IsAnswered, value-IsAnswered,
  set_header-IsFresh, headed-IsFresh, seen, headed,
}
use voting_service.Controller.Probes.{live, ready}
use voting_service.Controller.Router.{
  Route, get_route, cast_route, list_route, create_route, activate_route, finish_route,
  results_route, live_route, ready_route, probe, no_endpoint, missing, not_allowed, RouterConfig,
  Draws, endpoint, new_router,
}
use voting_service.Controller.Gate.{new_router-endpoint}

module _ {W Float : Type 0} (cfg : RouterConfig W Float) (polls : Polls W) (votes : Votes W) where
  admin_auth-IsAnswered :
      (next : Handler (Answer Float) W) (r : Request) (w : Writer (Answer Float)) (world : W)
      → IsFresh w
      → IsAnswered r.ctx ((next r (w, world)).0)
      → IsAnswered r.ctx ((admin_auth cfg.sha256 cfg.admin_token next r (w, world)).0)
  unfolding admin_auth
  admin_auth-IsAnswered next r w world fresh good = by_digest (
      bytes_eq (cfg.sha256 (bytes cfg.admin_token))
        (cfg.sha256 (bytes (bearer_token (first_value (r.header "Authorization"))))))
    where
      by_digest :
          (same : Bool)
          → IsAnswered r.ctx (
              (if not same
                then (
                  write_error r.ctx
                      (new_error unauthorized "invalid or missing admin credentials")
                      w,
                  world,
                )
                else next r (w, world)).0)
      by_digest true = good
      by_digest false = write_error-IsAnswered r.ctx w _ fresh

  -- The handlers that only call a service.
  simple-IsAnswered :
      {A : Type 0} (answer : A → Answer Float) (r : Request) (w : Writer (Answer Float))
      (called : Result A × W)
      → IsFresh w
      → ((a : A) → HasStatus (answer a) 200)
      → IsAnswered r.ctx ((respond (λ a w. write_json 200 (value (answer a)) w) r.ctx w called).0)
  simple-IsAnswered answer r w called fresh good =
      respond-IsAnswered _ r.ctx w called fresh
        (λ a. value-IsAnswered r.ctx 200 (answer a) w fresh (good a))

  -- A check, whose error is written, before the rest.
  checked-IsAnswered :
      {A : Type 0} (checked : Result A) (next : A → Writer (Answer Float) × W) (ctx : Context)
      (w : Writer (Answer Float)) (world : W)
      → IsFresh w
      → ((a : A) → IsAnswered ctx ((next a).0))
      → IsAnswered ctx (
          (elim checked as (λ _. Writer (Answer Float) × W) [
            | err e ↦ (write_error ctx e w, world)
            | ok a ↦ next a
          ]).0)
  checked-IsAnswered (ok a) next ctx w world fresh good = good a
  checked-IsAnswered (err e) next ctx w world fresh good = write_error-IsAnswered ctx w e fresh

  created-IsAnswered :
      {A : Type 0} (answer : A → Answer Float) (r : Request) (w : Writer (Answer Float))
      (called : Result A × W)
      → IsFresh w
      → ((a : A) → HasStatus (answer a) 201)
      → IsAnswered r.ctx ((respond (λ a w. write_json 201 (value (answer a)) w) r.ctx w called).0)
  created-IsAnswered answer r w called fresh good =
      respond-IsAnswered _ r.ctx w called fresh
        (λ a. value-IsAnswered r.ctx 201 (answer a) w fresh (good a))

  cast_vote-IsAnswered :
      (id : String) (r : Request) (w : Writer (Answer Float)) (world : W)
      → IsFresh w
      → IsAnswered r.ctx ((cast_vote polls votes cfg.read_vote id r (w, world)).0)
  unfolding cast_vote
  cast_vote-IsAnswered id r w world fresh =
      checked-IsAnswered (decode_json (cfg.read_vote r.limit r.body)) _ r.ctx w world fresh
        (λ request. created-IsAnswered (λ _. vote_answer "accepted") r w _ fresh (λ _. inr refl))

  voter_cookie-IsAnswered :
      (draws : Draws) (id : String) (r : Request) (w : Writer (Answer Float)) (world : W)
      → IsFresh w
      → IsAnswered r.ctx ((endpoint cfg polls votes draws (cast_route id) r (w, world)).0)
  unfolding endpoint voter_cookie
  voter_cookie-IsAnswered draws id r w world fresh = by_token (str_eq given "")
    where
      given : String
      given = elim (r.cookie cfg.cookie_name) as (λ _. String) [
        | none ↦ ""
        | some raw ↦ sanitize_token cfg.decodes raw
      ]

      by_token :
          (drawn : Bool)
          → IsAnswered r.ctx (
              (if drawn
                then cast_vote polls votes cfg.read_vote id
                    (record r { ctx = record r.ctx { voter_token = draws.voter_token } })
                    (set_header "Set-Cookie" (cfg.cookie_text draws.voter_token) w, world)
                else cast_vote polls votes cfg.read_vote id
                    (record r { ctx = record r.ctx { voter_token = given } })
                    (w, world)).0)
      by_token true = cast_vote-IsAnswered id _ _ world (set_header-IsFresh _ _ w fresh)
      by_token false = cast_vote-IsAnswered id _ w world fresh

  -- A probe, or the error where there is no checker.
  probe-IsAnswered :
      (health : Option (W → Report × W)) (handler : (W → Report × W) → Handler (Answer Float) W)
      (r : Request) (w : Writer (Answer Float)) (world : W)
      → IsFresh w
      → ((evaluate : W → Report × W) → IsAnswered r.ctx ((handler evaluate r (w, world)).0))
      → IsAnswered r.ctx ((probe health handler r (w, world)).0)
  unfolding probe no_endpoint
  probe-IsAnswered none handler r w world fresh good = write_error-IsAnswered r.ctx w _ fresh
  probe-IsAnswered (some evaluate) handler r w world fresh good = good evaluate

  ready-IsAnswered :
      (evaluate : W → Report × W) (r : Request) (w : Writer (Answer Float)) (world : W)
      → IsFresh w
      → IsAnswered r.ctx ((ready evaluate r (w, world)).0)
  unfolding ready ready_status
  ready-IsAnswered evaluate r w world fresh =
      value-IsAnswered r.ctx _ (ready_answer (evaluate world).0) w fresh (ground arith)

  endpoint-IsAnswered :
      (draws : Draws) (route : Route) (r : Request) (w : Writer (Answer Float)) (world : W)
      → IsFresh w
      → IsAnswered r.ctx ((endpoint cfg polls votes draws route r (w, world)).0)
  unfolding endpoint no_endpoint live get_poll create_poll list_polls activate_poll finish_poll
      get_results
  endpoint-IsAnswered draws (get_route id) r w world fresh =
      respond-IsAnswered _ r.ctx w _ fresh
        (λ poll. value-IsAnswered r.ctx 200 _ _ (set_header-IsFresh _ _ w fresh) (inl refl))
  endpoint-IsAnswered draws (cast_route id) r w world fresh =
      voter_cookie-IsAnswered draws id r w world fresh
  endpoint-IsAnswered draws list_route r w world fresh = admin_auth-IsAnswered _ r w world fresh (
      checked-IsAnswered (int_query "limit" (r.query "limit") (pos 0)) _ r.ctx w world fresh
        (λ limit.
          checked-IsAnswered (int_query "offset" (r.query "offset") (pos 0)) _ r.ctx w world fresh
            (λ offset. simple-IsAnswered _ r w _ fresh (λ _. inl refl))))
  endpoint-IsAnswered draws create_route r w world fresh = admin_auth-IsAnswered _ r w world fresh (
      checked-IsAnswered (decode_json (cfg.read_poll r.limit r.body)) _ r.ctx w world fresh
        (λ request. created-IsAnswered _ r w _ fresh (λ _. inr refl)))
  endpoint-IsAnswered draws (activate_route id) r w world fresh =
      admin_auth-IsAnswered _ r w world fresh (simple-IsAnswered _ r w _ fresh (λ _. inl refl))
  endpoint-IsAnswered draws (finish_route id) r w world fresh =
      admin_auth-IsAnswered _ r w world fresh (simple-IsAnswered _ r w _ fresh (λ _. inl refl))
  endpoint-IsAnswered draws (results_route id) r w world fresh =
      admin_auth-IsAnswered _ r w world fresh (
        respond-IsAnswered _ r.ctx w _ fresh
          (λ results. value-IsAnswered r.ctx 200 _ _ (set_header-IsFresh _ _ w fresh) (inl refl)))
  endpoint-IsAnswered draws live_route r w world fresh =
      probe-IsAnswered cfg.health _ r w world fresh
        (λ _. value-IsAnswered r.ctx 200 (live_answer "alive") w fresh (inl refl))
  endpoint-IsAnswered draws ready_route r w world fresh =
      probe-IsAnswered cfg.health ready r w world fresh
        (λ evaluate. ready-IsAnswered evaluate r w world fresh)
  endpoint-IsAnswered draws missing r w world fresh = write_error-IsAnswered r.ctx w _ fresh
  endpoint-IsAnswered draws not_allowed r w world fresh = write_error-IsAnswered r.ctx w _ fresh

  -- Every request, a probe or one that no route matches too, gets one response of the router without
  -- AccessLog, Recover and Timeout, whatever the services and the checker return: the report of the readiness probe with status 200 if it is ready and 503
  -- otherwise, another value with status 200 or 201, or an error with the status of its code and
  -- the identifier of the request, which is the client's own if it is well formed and a new one
  -- otherwise.
  pub new_router-IsAnswered :
      (draws : Draws) (route : Route) (r : Request) (world : W)
      → IsAnswered
          (seen cfg draws r).ctx
          ((new_router cfg polls votes draws route r (no_response, world)).0)
  new_router-IsAnswered draws route r world =
      subst (λ x. IsAnswered (seen cfg draws r).ctx (x.0))
        (sym (new_router-endpoint cfg polls votes draws route r world))
        (endpoint-IsAnswered draws route (seen cfg draws r) (headed cfg draws r) world
          (headed-IsFresh cfg draws r))
