-- ===== src/Entity/Errors.antt =====
-- Domain errors and their classification (internal/entity/errors.go). An `error` value is `ok` where
-- Go returns nil.
use voting_service.Base.{◌≡◌, refl, ◌⊎◌, inl, inr, String, Bool, true, false}

-- `ErrorCode`; the constructors are the declared constants.
pub data ErrorCode : Type 0 where
  invalid_request not_found conflict already_voted rate_limited quota_exceeded : ErrorCode
  unauthorized payload_too_large unavailable internal : ErrorCode

-- Go error values as the program builds them: `NewError`, `WrapError`, `fmt.Errorf` with `%w`, the
-- sentinel `usecase.ErrNotUpdated`, and an error of another library by its text.
pub data Error : Type 0 where
  new_error : ErrorCode → String → Error
  wrap_error : ErrorCode → Error → String → Error
  wrapped : String → Error → Error
  not_updated : Error
  foreign : String → Error

-- The results `(A, error)` of a Go function.
pub data Result {κ} (V : Type κ) : Type κ where
  err : Error → Result V
  ok : V → Result V

infixl 5 ◌>>=◌
abbrev pub ◌>>=◌ {κ μ} : {V : Type κ} {V' : Type μ} → Result V → (V → Result V') → Result V'
err cause >>= next = err cause
ok value >>= next = next value

infixl 5 ◌>>◌
abbrev pub ◌>>◌ {μ} : {V' : Type μ} → Result (Unit {0}) → Result V' → Result V'
check >> rest = check >>= λ passed. rest

-- `CodeOf`: `errors.As` finds the first domain error of the chain.
unfoldable pub code_of : Error → ErrorCode
code_of (new_error code message) = code
code_of (wrap_error code cause message) = code
code_of (wrapped context cause) = code_of cause
code_of not_updated = internal
code_of (foreign text) = internal

-- `MessageOf`.
unfoldable pub message_of : Error → String
message_of (new_error code message) = message
message_of (wrap_error code cause message) = message
message_of (wrapped context cause) = message_of cause
message_of not_updated = "internal server error"
message_of (foreign text) = "internal server error"

-- `errors.Is(err, usecase.ErrNotUpdated)`: the whole chain is walked, through `Error.Unwrap`.
unfoldable pub is_not_updated : Error → Bool
is_not_updated (new_error code message) = false
is_not_updated (wrap_error code cause message) = is_not_updated cause
is_not_updated (wrapped context cause) = is_not_updated cause
is_not_updated not_updated = true
is_not_updated (foreign text) = false

-- `ErrPollNotFound`.
unfoldable pub err_poll_not_found : Error
err_poll_not_found = new_error not_found "poll not found"

-- `return fmt.Errorf("context: %w", err)` on a failure, and the value otherwise.
unfoldable pub in_context {ℓ} : {A : Type ℓ} → String → Result A → Result A
in_context context (ok a) = ok a
in_context context (err e) = err (wrapped context e)

unfoldable pub is_ok {ℓ} : {A : Type ℓ} → Result A → Bool
is_ok (ok a) = true
is_ok (err e) = false

pub Result-cases {ℓ} :
    {A : Type ℓ} (m : Result A) → ((a : A) × (m ≡ ok a)) ⊎ ((e : Error) × (m ≡ err e))
Result-cases (ok a) = inl (a, refl)
Result-cases (err e) = inr (e, refl)

pub ok-injective {ℓ} : {A : Type ℓ} {a b : A} → ok a ≡ ok b → a ≡ b
ok-injective h = cc

-- `code == CodeNotFound`.
abbrev pub is_not_found : ErrorCode → Bool
is_not_found not_found = true
is_not_found _ = false
