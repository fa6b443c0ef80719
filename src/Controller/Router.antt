-- ===== src/Controller/Router.antt =====
-- The router (internal/controller/router.go). chi's match of a request to a route is a parameter: it
-- is given as the route. `AccessLog`, `Recover` and `Timeout` leave the response of a handler that
-- returns as it is, and are left out here.
use voting_service.Base.{ℕ, String, Bool, true, false, Option, none, some, List}
use voting_service.Base.Int.{ℤ}
use voting_service.Entity.Errors.{new_error, not_found, invalid_request}
use voting_service.HttpJson.{Decoded, write_error}
use voting_service.Health.{Report}
use voting_service.Middleware.Identity.{Netip}
use voting_service.Middleware.Chain.{
  Handler, correlation, real_ip, voter_cookie, admin_auth, body_limit,
}
use voting_service.Controller.Dto.{CreatePollRequest, VoteRequest}
use voting_service.Controller.Probes.{live, ready}
use voting_service.Controller.Handlers.{
  Polls, Votes, Answer, get_poll, cast_vote, create_poll, list_polls, activate_poll, finish_poll,
  get_results,
}

-- The routes, with `{poll_id}`, those of the probes, and chi's two failures outside `/api/v1/admin`.
pub data Route : Type 0 where
  get_route cast_route activate_route finish_route results_route : String → Route
  list_route create_route live_route ready_route missing not_allowed : Route

-- The routes under `/api/v1/admin`.
unfoldable pub is_admin : Route → Bool
is_admin (activate_route id) = true
is_admin (finish_route id) = true
is_admin (results_route id) = true
is_admin list_route = true
is_admin create_route = true
is_admin _ = false

-- `RouterConfig`, and the parameters of the handlers; `health` is the `evaluate` of the checker, if
-- there is one.
pub record RouterConfig (W Float : Type 0) : Type 1 where
  pub netip : Netip
  pub split_host_port : String → Option String
  pub trusted_proxies : List netip.Prefix
  pub health : Option (W → Report × W)
  pub sha256 : List ℕ → List ℕ
  pub admin_token : String
  pub max_request_bytes : ℕ
  pub decodes : String → Bool
  pub cookie_name : String
  pub cookie_text : String → String
  pub read_vote : Option ℕ → String → Decoded VoteRequest
  pub read_poll : Option ℕ → String → Decoded CreatePollRequest
  pub poll_cache_ttl : ℕ
  pub zero_float : Float
  pub ratio : ℤ → ℤ → Float

-- `router.NotFound`.
unfoldable pub no_endpoint : {W Float : Type 0} → Handler (Answer Float) W
no_endpoint r (w, world) = (write_error r.ctx (new_error not_found "endpoint not found") w, world)

-- A probe, which has a route only if there is a checker.
unfoldable pub probe :
    {W Float : Type 0}
    → Option (W → Report × W)
    → ((W → Report × W) → Handler (Answer Float) W)
    → Handler (Answer Float) W
probe none handler = no_endpoint
probe (some evaluate) handler = handler evaluate

-- What a request draws and when it is served.
pub record Draws : Type 0 where
  pub request_id : String
  pub voter_token : String
  pub now : ℕ

module _ {W Float : Type 0} (cfg : RouterConfig W Float) (polls : Polls W) (votes : Votes W) where
  -- A handler under `admin.Use(middleware.AdminAuth(…))`.
  abbrev guarded : Handler (Answer Float) W → Handler (Answer Float) W
  guarded = admin_auth cfg.sha256 cfg.admin_token

  -- The routes of `NewRouter`.
  unfoldable pub endpoint : Draws → Route → Handler (Answer Float) W
  endpoint draws (get_route id) = get_poll polls votes cfg.poll_cache_ttl id
  endpoint draws (cast_route id) =
      voter_cookie cfg.decodes cfg.cookie_text cfg.cookie_name draws.voter_token
        (cast_vote polls votes cfg.read_vote id)
  endpoint draws list_route = guarded (list_polls polls votes)
  endpoint draws create_route = guarded (create_poll polls votes cfg.read_poll)
  endpoint draws (activate_route id) = guarded (activate_poll polls votes id)
  endpoint draws (finish_route id) = guarded (finish_poll polls votes id)
  endpoint draws (results_route id) =
      guarded (get_results polls votes cfg.zero_float cfg.ratio draws.now id)
  endpoint draws live_route = probe cfg.health (λ _. live)
  endpoint draws ready_route = probe cfg.health ready
  endpoint draws missing = no_endpoint
  endpoint draws not_allowed = λ r (w, world). (
    write_error r.ctx (new_error invalid_request "method not allowed for this endpoint") w,
    world,
  )

  -- `NewRouter`: the middleware around a route.
  unfoldable pub new_router : Draws → Route → Handler (Answer Float) W
  new_router draws route = correlation draws.request_id (
      real_ip cfg.netip cfg.split_host_port cfg.trusted_proxies
        (body_limit cfg.max_request_bytes (endpoint draws route)))
