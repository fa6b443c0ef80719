-- ===== src/HttpJson.antt =====
-- JSON responses and errors (internal/httpjson/response.go, internal/httpjson/context.go), over
-- `http.ResponseWriter`. A handler takes the request and the state, which is the response so far
-- beside the world of the services. The encoder and log lines are left out: a body is its value.
use voting_service.Base.{
  ℕ, String, Option, none, some, List, [], ◌∷◌, ◌++◌, ◌==◌, if◌then◌else◌, insert,
}
use voting_service.Entity.Errors.{
  Error, Result, ok, err, ErrorCode, invalid_request, not_found, conflict, already_voted,
  rate_limited, quota_exceeded, unauthorized, payload_too_large, unavailable, internal, wrap_error,
  code_of, message_of,
}

-- `statusByCode` and `StatusFor`.
unfoldable pub status_for : ErrorCode → ℕ
status_for invalid_request = 400
status_for unauthorized = 401
status_for not_found = 404
status_for conflict = 409
status_for already_voted = 409
status_for payload_too_large = 413
status_for rate_limited = 429
status_for quota_exceeded = 429
status_for unavailable = 503
status_for internal = 500

-- `ErrorDetail`; the code is given for its text.
pub record ErrorDetail : Type 0 where
  pub code : ErrorCode
  pub message : String
  pub request_id : String

-- What `WriteJSON` encodes: an `ErrorBody`, or a value of the endpoint.
pub data Body (V : Type 0) : Type 0 where
  error_body : ErrorDetail → Body V
  value : V → Body V

-- A response: the headers as they are set, the status and the headers that are sent, and the body.
pub record Writer (V : Type 0) : Type 0 where
  pub headers : List (String × String)
  pub sent : Option (ℕ × List (String × String))
  pub bodies : List (Body V)

abbrev pub no_response : {V : Type 0} → Writer V
no_response = record { headers = []; sent = none; bodies = [] }

-- The values of the request's context; a value that is missing reads as "".
pub record Context : Type 0 where
  pub request_id : String
  pub client_ip : String
  pub voter_token : String

-- `Header().Set`, `WriteHeader`, of which only the first counts, and a `Write` after it.
unfoldable pub set_header : {V : Type 0} → String → String → Writer V → Writer V
set_header name text w = record w { headers = insert name text w.headers }

unfoldable pub write_header : {V : Type 0} → ℕ → Writer V → Writer V
write_header status w = record w {
  sent = elim w.sent [ none ↦ some (status, w.headers) | some head ↦ some head ];
}

unfoldable pub write_body : {V : Type 0} → Body V → Writer V → Writer V
write_body body w = record w { bodies = w.bodies ++ body ∷ [] }

-- `WriteJSON`.
unfoldable pub write_json : {V : Type 0} → ℕ → Body V → Writer V → Writer V
write_json status body w =
    write_body body
      (write_header status (set_header "Content-Type" "application/json; charset=utf-8" w))

-- `WriteError`.
unfoldable pub write_error : {V : Type 0} → Context → Error → Writer V → Writer V
write_error ctx e w =
    let status = status_for (code_of e) in
    let detail : ErrorDetail = record {
      code = code_of e;
      message = message_of e;
      request_id = ctx.request_id;
    } in
    write_json status (error_body detail) (
      if status == 401
      then set_header "WWW-Authenticate" "Bearer realm=\"voting-service\"" w
      else w)

-- What the JSON decoder makes of a body.
pub data Decoded (A : Type 0) : Type 0 where
  decoded : A → Decoded A
  too_large : Error → Decoded A
  malformed : Error → Decoded A

-- `DecodeJSON`.
unfoldable pub decode_json : {A : Type 0} → Decoded A → Result A
decode_json (decoded a) = ok a
decode_json (too_large e) = err (wrap_error payload_too_large e "request body is too large")
decode_json (malformed e) = err (wrap_error invalid_request e "request body is not valid JSON")

-- The status that is sent.
abbrev pub head_status : Option (ℕ × List (String × String)) → Option ℕ
head_status none = none
head_status (some (status, headers)) = some status

abbrev pub sent_status : {V : Type 0} → Writer V → Option ℕ
sent_status w = head_status w.sent
