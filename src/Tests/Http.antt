-- ===== src/Tests/Http.antt =====
-- The API (internal/controller, internal/middleware, internal/health) at concrete requests.
use voting_service.Base.{
  arith, ◌⊎◌, ℕ, suc, String, true, false, ◌≡◌, refl, Option, none, some, List, [], ◌∷◌, str_eq,
  trim_space, split_at, bytes, if◌then◌else◌,
}
use voting_service.Base.Int.{pos}
use voting_service.Entity.Errors.{ok, err, foreign, new_error, not_found, unavailable}
use voting_service.HttpJson.{decoded, malformed, no_response, sent_status}
use voting_service.Middleware.Identity.{
  IsSafe, sanitize_request_id, sanitize_request_id-IsSafe, Netip, resolve_client_ip,
  resolve_client_ip-last_untrusted, is_trusted, judge, hops_of, parse_addr,
}
use voting_service.Middleware.Chain.{Request, bearer_token, cut_space, first_value, bytes_eq}
use voting_service.Middleware.Recorder.{
  head, body, record_calls, fresh_recorder, status_or_ok, client_status, status_or_ok-client_status,
}
use voting_service.Controller.Dto.{VoteRequest}
use voting_service.Controller.Handlers.{Polls, Votes}
use voting_service.Controller.Router.{
  RouterConfig, Draws, new_router, cast_route, list_route, is_admin,
}
use voting_service.Controller.Answers.{IsAnswered, seen}
use voting_service.Controller.Gate.{new_router-Refused}
use voting_service.Controller.OneResponse.{new_router-IsAnswered}
use voting_service.Controller.Casting.{Reports, command_of, new_router-cast}
use voting_service.SyncService.Sync.{sub_time}
use voting_service.Health.{Dependency, Cached, at_start, evaluate, ready_status}
use voting_service.Health.Observed.{observed, any_blocks, all_healthy, evaluate-observed}

-- Addresses are their texts, and a prefix is one address.
abbrev texts : Netip
texts = record {
  Addr = String;
  Prefix = String;
  parse = λ s. if str_eq s "" then none else some s;
  unmap = λ a. a;
  text = λ a. a;
  prefix_contains = str_eq;
}

abbrev whole_host : String → Option String
whole_host s = none

abbrev proxies : List String
proxies = "10.0.0.1" ∷ "10.0.0.2" ∷ []

resolve_client_ip-last_untrusted_example :
    resolve_client_ip texts whole_host proxies "10.0.0.1" ("9.9.9.9, 1.2.3.4, 10.0.0.2" ∷ [])
    ≡ "1.2.3.4"
unfolding is_trusted judge hops_of parse_addr split_at trim_space str_eq
resolve_client_ip-last_untrusted_example =
    resolve_client_ip-last_untrusted texts whole_host proxies "10.0.0.1"
      ("9.9.9.9, 1.2.3.4, 10.0.0.2" ∷ []) ("9.9.9.9" ∷ []) (" 10.0.0.2" ∷ []) " 1.2.3.4" "10.0.0.1"
      "1.2.3.4" refl refl refl
      (("10.0.0.2", record { read = refl; unmapped = refl; trust_of = refl }), tt)
      (record { read = refl; unmapped = refl; trust_of = refl })

-- The world is the number of ballots.
abbrev no_polls : Polls ℕ
no_polls = record {
  create = λ c w. (err (new_error unavailable "no"), w);
  get = λ p w. (err (new_error not_found "no"), w);
  list = λ l o w. (err (new_error unavailable "no"), w);
  activate = λ p w. (err (new_error not_found "no"), w);
  finish = λ p w. (err (new_error not_found "no"), w);
  results = λ p w. (err (new_error not_found "no"), w);
}

abbrev counting : Votes ℕ
counting = record { cast = λ c w. (ok tt, suc w) }

abbrev soup : VoteRequest
soup = record { option_ids = "soup" ∷ [] }

abbrev api : RouterConfig ℕ ℕ
api = record {
  netip = texts;
  split_host_port = whole_host;
  trusted_proxies = [];
  health = some (λ w. (at_start, w));
  sha256 = λ b. b;
  admin_token = "secret";
  max_request_bytes = 65536;
  decodes = λ s. true;
  cookie_name = "voter_id";
  cookie_text = λ token. token;
  read_vote = λ limit body. if str_eq body "soup" then decoded soup else malformed (foreign "EOF");
  read_poll = λ limit body. malformed (foreign "EOF");
  poll_cache_ttl = 60_000_000_000;
  zero_float = 0;
  ratio = λ votes total. 0;
}

abbrev draws : Draws
draws = record { request_id = "r1"; voter_token = "v1"; now = 5 }

abbrev ballot : Request
ballot = record {
  remote_addr = "1.2.3.4";
  header = λ name. [];
  cookie = λ name. none;
  query = λ name. "";
  body = "soup";
  limit = none;
  ctx = record { request_id = ""; client_ip = ""; voter_token = "" };
}

new_router-Refused_example :
    (sent_status ((new_router api no_polls counting draws list_route ballot (no_response, 7)).0)
      ≡ some 401)
    × ((new_router api no_polls counting draws list_route ballot (no_response, 7)).1 ≡ 7)
unfolding is_admin bytes_eq bearer_token cut_space first_value bytes
new_router-Refused_example =
    new_router-Refused api no_polls counting draws list_route ballot 7 refl refl

new_router-IsAnswered_example :
    IsAnswered
      (seen api draws ballot).ctx
      ((new_router api no_polls counting draws (cast_route "p") ballot (no_response, 7)).0)
new_router-IsAnswered_example =
    new_router-IsAnswered api no_polls counting draws (cast_route "p") ballot 7

new_router-cast_example :
    Reports
      (counting.cast (command_of api no_polls counting draws "p" ballot soup) 7)
      (new_router api no_polls counting draws (cast_route "p") ballot (no_response, 7))
unfolding str_eq
new_router-cast_example = new_router-cast api no_polls counting draws "p" ballot 7 soup refl

-- PostgreSQL answers and Redis does not.
abbrev backends : List (Dependency ℕ)
backends =
    record { name = "postgres"; critical = true; check = λ w. (ok tt, suc w) }
    ∷ record { name = "redis"; critical = false; check = λ w. (err (foreign "timeout"), suc w) }
    ∷ []

abbrev never : Cached
never = record { report = at_start; cached_at = 0 }

evaluate-observed_example :
    ((evaluate (pos 1_000_000_000) backends 5_000_000_000 5_000_000_001 never 3).0.dependencies
      ≡ observed backends 3)
    × (ready_status ((evaluate (pos 1_000_000_000) backends 5_000_000_000 5_000_000_001 never 3).0)
        ≡ (if any_blocks (observed backends 3) then 503 else 200))
    × ((evaluate (pos 1_000_000_000) backends 5_000_000_000 5_000_000_001 never 3).0.status ≡ (
        if any_blocks (observed backends 3)
        then "unready"
        else if all_healthy (observed backends 3)
        then "ready"
        else "degraded"))
    × ((evaluate (pos 1_000_000_000) backends 5_000_000_000 5_000_000_001 never 3).1.report
        ≡ (evaluate (pos 1_000_000_000) backends 5_000_000_000 5_000_000_001 never 3).0)
unfolding sub_time
evaluate-observed_example =
    evaluate-observed (pos 1_000_000_000) backends 5_000_000_000 5_000_000_001 never 3 refl

status_or_ok-client_status_example :
    status_or_ok (record_calls (body 3 ∷ head 500 ∷ []) fresh_recorder)
    ≡ client_status (body 3 ∷ head 500 ∷ []) none
status_or_ok-client_status_example =
    status_or_ok-client_status (body 3 ∷ head 500 ∷ []) (omega arith, tt)

sanitize_request_id-IsSafe_example :
    (IsSafe "a b" × (sanitize_request_id "a b" ≡ "a b"))
    ⊎ ((¬ IsSafe "a b") × (sanitize_request_id "a b" ≡ ""))
sanitize_request_id-IsSafe_example = sanitize_request_id-IsSafe "a b"
