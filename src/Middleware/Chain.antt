-- ===== src/Middleware/Chain.antt =====
-- The middleware as functions of the next handler (internal/middleware/identity.go,
-- internal/middleware/security.go). SHA-256 and the text of a cookie are parameters; what
-- `randomToken` draws is an argument.
use Prim.Native.Char.{code}
use voting_service.Base.{
  ℕ, String, Bool, true, false, not, ◌&&◌, Option, none, some, List, [], ◌∷◌, ◌==◌, if◌then◌else◌,
  str_eq, trim_space, equal_fold, bytes,
}
use voting_service.Entity.Errors.{new_error, unauthorized}
use voting_service.HttpJson.{Context, Writer, set_header, write_error}
use voting_service.Middleware.Identity.{
  Netip, resolve_client_ip, sanitize_request_id, sanitize_token,
}

-- `http.Request`: the values of a header, the value of a cookie and of a query parameter, the body,
-- of which at most `limit` bytes are read, and the values of the context.
pub record Request : Type 0 where
  pub remote_addr : String
  pub header : String → List String
  pub cookie : String → Option String
  pub query : String → String
  pub body : String
  pub limit : Option ℕ
  pub ctx : Context

-- The response and the world of the services.
abbrev pub Handler : Type 0 → Type 0 → Type 0
Handler V W = Request → Writer V × W → Writer V × W

-- `Header.Get`.
unfoldable pub first_value : List String → String
first_value [] = ""
first_value (text ∷ texts) = text

-- `strings.Cut` at a space.
unfoldable pub cut_space : String → Option (String × String)
cut_space String.[] = none
cut_space (String.◌∷◌ c s) =
    let rest = cut_space s in
    if code c == 32
    then some ("", s)
    else elim rest [ none ↦ none | some (before, after) ↦ some (String.◌∷◌ c before, after) ]

-- `bearerToken`.
unfoldable pub bearer_token : String → String
bearer_token header = elim (cut_space header) [
  | none ↦ ""
  | some (scheme, value) ↦ if not (equal_fold scheme "Bearer") then "" else trim_space value
]

-- `subtle.ConstantTimeCompare(…) == 1`.
unfoldable pub bytes_eq : List ℕ → List ℕ → Bool
bytes_eq [] [] = true
bytes_eq (a ∷ left) (b ∷ right) = a == b && bytes_eq left right
bytes_eq _ _ = false

module _ {V W : Type 0} where
  -- `Correlation`.
  unfoldable pub correlation : String → Handler V W → Handler V W
  correlation draw next r (w, world) =
      let given = sanitize_request_id (first_value (r.header "X-Request-Id")) in
      let id = if str_eq given "" then draw else given in
      next (record r { ctx = record r.ctx { request_id = id } })
        (set_header "X-Request-Id" id w, world)

  -- `RealIP`.
  unfoldable pub real_ip :
      (netip : Netip) → (String → Option String) → List netip.Prefix → Handler V W → Handler V W
  real_ip netip split_host_port trusted next r =
      let ip =
        resolve_client_ip netip split_host_port trusted r.remote_addr
          (r.header "X-Forwarded-For") in
      next (record r { ctx = record r.ctx { client_ip = ip } })

  -- `VoterCookie`, for the cookie's name; `cookie_text` is what `http.SetCookie` writes for a token.
  unfoldable pub voter_cookie :
      (String → Bool) → (String → String) → String → String → Handler V W → Handler V W
  voter_cookie decodes cookie_text name draw next r (w, world) =
      let given = elim (r.cookie name) as (λ _. String) [
        | none ↦ ""
        | some raw ↦ sanitize_token decodes raw
      ] in
      if str_eq given ""
      then next (record r { ctx = record r.ctx { voter_token = draw } })
          (set_header "Set-Cookie" (cookie_text draw) w, world)
      else next (record r { ctx = record r.ctx { voter_token = given } }) (w, world)

  -- `AdminAuth`.
  unfoldable pub admin_auth : (List ℕ → List ℕ) → String → Handler V W → Handler V W
  admin_auth sha256 admin_token next r (w, world) =
      let presented = bearer_token (first_value (r.header "Authorization")) in
      if not (bytes_eq (sha256 (bytes admin_token)) (sha256 (bytes presented)))
      then (
        write_error r.ctx (new_error unauthorized "invalid or missing admin credentials") w,
        world,
      )
      else next r (w, world)

  -- `BodyLimit`.
  unfoldable pub body_limit : ℕ → Handler V W → Handler V W
  body_limit max_bytes next r = next (record r { limit = some max_bytes })
