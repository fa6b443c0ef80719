-- ===== src/Controller/Answers.antt =====
-- The answers to a request to the API (internal/controller/router.go): one response each.
use voting_service.Base.{
  ℕ, String, Bool, true, false, ◌≡◌, refl, ap, ◌⊎◌, inl, inr, none, some, List, [], ◌∷◌, ◌++◌, ◌==◌,
  if◌then◌else◌, str_eq,
}
use voting_service.Entity.Errors.{Error, Result, ok, err, code_of}
use voting_service.HttpJson.{
  Context, Writer, Body, error_body, value, no_response, sent_status, head_status, status_for,
  set_header, write_header, write_body, write_json, write_error, ErrorDetail,
}
use voting_service.Middleware.Identity.{resolve_client_ip, sanitize_request_id}
use voting_service.Middleware.Chain.{Request, first_value}
use voting_service.Controller.Handlers.{
  Answer, ready_answer, live_answer, poll_answer, page_answer, vote_answer, results_answer, respond,
}
use voting_service.Controller.Router.{RouterConfig, Draws}

-- Nothing is sent yet.
abbrev pub IsFresh : {V : Type 0} → Writer V → Type 0
IsFresh w = (w.sent ≡ none) × (w.bodies ≡ [])

-- A value has status 200 or 201, and the report of the readiness probe 200 or, if it is not ready,
-- 503.
abbrev pub HasStatus : {Float : Type 0} → Answer Float → ℕ → Type 0
HasStatus (ready_answer report) status = status ≡ (if report.ready then 200 else 503)
HasStatus (live_answer text) status = (status ≡ 200) ⊎ (status ≡ 201)
HasStatus (poll_answer poll) status = (status ≡ 200) ⊎ (status ≡ 201)
HasStatus (page_answer page) status = (status ≡ 200) ⊎ (status ≡ 201)
HasStatus (vote_answer text) status = (status ≡ 200) ⊎ (status ≡ 201)
HasStatus (results_answer results) status = (status ≡ 200) ⊎ (status ≡ 201)

-- One response is sent: a value with its status, or an error with the status of its code and the
-- identifier of the request.
abbrev pub IsAnswered : {Float : Type 0} → Context → Writer (Answer Float) → Type 0
IsAnswered {Float} ctx w =
    (status : ℕ) × (headers : List (String × String)) × (body : Body (Answer Float)) × (w.sent
      ≡ some (status, headers))
    × (w.bodies ≡ body ∷ [])
    × (((v : Answer Float) × (body ≡ value v) × HasStatus v status)
        ⊎ ((d : ErrorDetail) × (body ≡ error_body d)
            × (status ≡ status_for d.code)
            × (d.request_id ≡ ctx.request_id)))

pub set_header-IsFresh :
    {V : Type 0} (name text : String) (w : Writer V) → IsFresh w → IsFresh (set_header name text w)
unfolding set_header
set_header-IsFresh name text w fresh = fresh

pub write_json-sent :
    {V : Type 0} (status : ℕ) (body : Body V) (w : Writer V)
    → IsFresh w
    → ((headers : List (String × String)) × ((write_json status body w).sent
          ≡ some (status, headers)))
      × ((write_json status body w).bodies ≡ body ∷ [])
unfolding write_json write_body write_header set_header
write_json-sent status body w (unsent, empty) =
    let typed = set_header "Content-Type" "application/json; charset=utf-8" w in
    ((typed.headers, rw unsent refl), ap (λ bodies. bodies ++ body ∷ []) empty)

pub value-IsAnswered :
    {Float : Type 0} (ctx : Context) (status : ℕ) (v : Answer Float) (w : Writer (Answer Float))
    → IsFresh w
    → HasStatus v status
    → IsAnswered ctx (write_json status (value v) w)
value-IsAnswered ctx status v w fresh good =
    let ((headers, sent), bodies) = write_json-sent status (value v) w fresh in
    (status, headers, value v, sent, bodies, inl (v, refl, good))

challenged-IsFresh :
    {V : Type 0} (test : Bool) (w : Writer V)
    → IsFresh w
    → IsFresh
        (if test then set_header "WWW-Authenticate" "Bearer realm=\"voting-service\"" w else w)
unfolding set_header
challenged-IsFresh true w fresh = fresh
challenged-IsFresh false w fresh = fresh

pub write_error-IsAnswered :
    {Float : Type 0} (ctx : Context) (w : Writer (Answer Float)) (e : Error)
    → IsFresh w
    → IsAnswered ctx (write_error ctx e w)
unfolding write_error
write_error-IsAnswered ctx w e fresh =
    let ((headers, sent), bodies) =
      write_json-sent (status_for (code_of e)) _ _
        (challenged-IsFresh (status_for (code_of e) == 401) w fresh) in
    (status_for (code_of e), headers, _, sent, bodies, inr (_, refl, refl, refl))

pub sent-write_error :
    {V : Type 0} (ctx : Context) (w : Writer V) (e : Error)
    → IsFresh w
    → sent_status (write_error ctx e w) ≡ some (status_for (code_of e))
unfolding write_error
sent-write_error ctx w e fresh =
    let ((headers, sent), bodies) =
      write_json-sent (status_for (code_of e)) _ _
        (challenged-IsFresh (status_for (code_of e) == 401) w fresh) in
    ap head_status sent

-- What follows a call of a service.
pub respond-IsAnswered :
    {W Float A : Type 0} (answer : A → Writer (Answer Float) → Writer (Answer Float))
    (ctx : Context) (w : Writer (Answer Float)) (called : Result A × W)
    → IsFresh w
    → ((a : A) → IsAnswered ctx (answer a w))
    → IsAnswered ctx ((respond answer ctx w called).0)
unfolding respond
respond-IsAnswered answer ctx w (ok a, world) fresh good = good a
respond-IsAnswered answer ctx w (err e, world) fresh good = write_error-IsAnswered ctx w e fresh

module _ {W Float : Type 0} (cfg : RouterConfig W Float) where
  -- The request and the response as the middleware passes them on.
  abbrev pub correlation_id : Draws → Request → String
  correlation_id draws r =
      if str_eq (sanitize_request_id (first_value (r.header "X-Request-Id"))) ""
      then draws.request_id
      else sanitize_request_id (first_value (r.header "X-Request-Id"))

  abbrev pub seen : Draws → Request → Request
  seen draws r = record r {
    limit = some cfg.max_request_bytes;
    ctx = record {
      request_id = correlation_id draws r;
      client_ip =
          resolve_client_ip cfg.netip cfg.split_host_port cfg.trusted_proxies r.remote_addr
            (r.header "X-Forwarded-For");
      voter_token = r.ctx.voter_token;
    };
  }

  abbrev pub headed : Draws → Request → Writer (Answer Float)
  headed draws r = set_header "X-Request-Id" (correlation_id draws r) no_response

  pub headed-IsFresh : (draws : Draws) (r : Request) → IsFresh (headed draws r)
  unfolding set_header
  headed-IsFresh draws r = (refl, refl)
