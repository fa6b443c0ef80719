-- ===== src/Controller/Gate.antt =====
-- What a request to the API (internal/controller/router.go) gets and does.
use voting_service.Base.{true, false, ◌≡◌, refl, ap, ◌∙◌, some, bytes}
use voting_service.Entity.Errors.{code_of, new_error, unauthorized}
use voting_service.HttpJson.{Writer, no_response, sent_status, status_for, write_error}
use voting_service.Middleware.Chain.{
  Request, Handler, first_value, bearer_token, bytes_eq, correlation, real_ip, admin_auth,
  body_limit,
}
use voting_service.Controller.Handlers.{Polls, Votes, Answer}
use voting_service.Controller.Answers.{sent-write_error, headed-IsFresh, seen, headed}
use voting_service.Controller.Router.{
  Route, get_route, cast_route, list_route, create_route, activate_route, finish_route,
  results_route, live_route, ready_route, missing, not_allowed, is_admin, RouterConfig, Draws,
  endpoint, new_router,
}

-- The digests of the admin token and of the bearer token of a request differ.
abbrev pub Refused : {W Float : Type 0} → RouterConfig W Float → Request → Type 0
Refused cfg r =
    bytes_eq (cfg.sha256 (bytes cfg.admin_token))
      (cfg.sha256 (bytes (bearer_token (first_value (r.header "Authorization")))))
    ≡ false

module _ {W Float : Type 0} (cfg : RouterConfig W Float) (polls : Polls W) (votes : Votes W) where
  -- A gate that refuses.
  admin_auth-Refused :
      (next : Handler (Answer Float) W) (r : Request) (w : Writer (Answer Float)) (world : W)
      → Refused cfg r
      → admin_auth cfg.sha256 cfg.admin_token next r (w, world) ≡ (
        write_error r.ctx (new_error unauthorized "invalid or missing admin credentials") w,
        world,
      )
  unfolding admin_auth write_error
  admin_auth-Refused next r w world other = rw (other, admin_auth) refl

  endpoint-Refused :
      (draws : Draws) (route : Route) (r : Request) (w : Writer (Answer Float)) (world : W)
      → is_admin route ≡ true
      → Refused cfg r
      → endpoint cfg polls votes draws route r (w, world) ≡ (
        write_error r.ctx (new_error unauthorized "invalid or missing admin credentials") w,
        world,
      )
  unfolding endpoint is_admin
  endpoint-Refused draws (activate_route id) r w world admin other =
      admin_auth-Refused _ r w world other
  endpoint-Refused draws (finish_route id) r w world admin other =
      admin_auth-Refused _ r w world other
  endpoint-Refused draws (results_route id) r w world admin other =
      admin_auth-Refused _ r w world other
  endpoint-Refused draws list_route r w world admin other = admin_auth-Refused _ r w world other
  endpoint-Refused draws create_route r w world admin other = admin_auth-Refused _ r w world other
  endpoint-Refused draws (get_route id) r w world admin other = absurd (cc admin)
  endpoint-Refused draws (cast_route id) r w world admin other = absurd (cc admin)
  endpoint-Refused draws live_route r w world admin other = absurd (cc admin)
  endpoint-Refused draws ready_route r w world admin other = absurd (cc admin)
  endpoint-Refused draws missing r w world admin other = absurd (cc admin)
  endpoint-Refused draws not_allowed r w world admin other = absurd (cc admin)

  pub new_router-endpoint :
      (draws : Draws) (route : Route) (r : Request) (world : W)
      → new_router cfg polls votes draws route r (no_response, world)
        ≡ endpoint cfg polls votes draws route (seen cfg draws r) (headed cfg draws r, world)
  unfolding new_router correlation real_ip body_limit
  new_router-endpoint draws route r world = refl

  -- Whatever the handlers and services are, a request to a route under `/api/v1/admin` whose bearer
  -- token has not the digest of the admin token is answered with status 401 and changes nothing.
  pub new_router-Refused :
      (draws : Draws) (route : Route) (r : Request) (world : W)
      → is_admin route ≡ true
      → Refused cfg r
      → (sent_status ((new_router cfg polls votes draws route r (no_response, world)).0) ≡ some 401)
        × ((new_router cfg polls votes draws route r (no_response, world)).1 ≡ world)
  unfolding code_of status_for
  new_router-Refused draws route r world admin other =
      let served =
        new_router-endpoint draws route r world
        ∙ endpoint-Refused draws route (seen cfg draws r) (headed cfg draws r) world admin other in
      (
        ap (λ x. sent_status x.0) served
            ∙ sent-write_error (seen cfg draws r).ctx (headed cfg draws r)
                (new_error unauthorized "invalid or missing admin credentials")
                (headed-IsFresh cfg draws r),
        ap (λ x. x.1) served,
      )
