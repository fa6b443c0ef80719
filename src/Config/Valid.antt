-- ===== src/Config/Valid.antt =====
-- What holds of every configuration that `Load` (internal/config/config.go) returns.
use voting_service.Base.{
  ℕ, ◌^◌, ◌≤◌, String, Bool, true, false, ◌≡◌, refl, Option, none, some, List, [], ◌∷◌, ◌++◌,
  if◌then◌else◌, str_eq, trim_space, parse_int, arith, ◌<◌,
}
use Prim.Native.String.{len}
use voting_service.Base.Int.{ℤ, pos, negsuc}
use voting_service.Config.Loader.{
  Problem, Loading, ◌>>=◌, in_range, reject, integer, duration, secret, fail_if, to_int32,
}

-- A value from one number to another.
unfoldable pub Within : ℕ → ℕ → ℤ → Type 0
Within low high (pos n) = (low ≤ n) × (n ≤ high)
Within low high (negsuc n) = ⊥

-- What holds of both values holds of a test's.
if-value :
    {A : Type 0} (P : A → Type 0) (test : Bool) (a b : Loading A)
    → P (a.0)
    → P (b.0)
    → P ((if test then a else b).0)
if-value P true a b left right = left
if-value P false a b left right = right

read-value :
    {A : Type 0} (P : ℤ → Type 0) (read : Option A) (a : Loading ℤ) (f : A → Loading ℤ)
    → P (a.0)
    → ((x : A) → P ((f x).0))
    → P ((elim read as (λ _. Loading ℤ) [ none ↦ a | some x ↦ f x ]).0)
read-value P none a f left right = left
read-value P (some x) a f left right = right x

in_range-Within :
    (key : String) (fallback low high : ℕ) (value : ℤ)
    → Within low high (pos fallback)
    → Within low high ((in_range key (pos fallback) (pos low) (pos high) value).0)
unfolding in_range reject Within
in_range-Within key fallback low high (pos n) ok = ground arith
in_range-Within key fallback low high (negsuc n) ok = ground arith

-- A loader's value is within its bounds, whatever the variable is, if its fallback is.
pub integer-Within :
    (getenv : String → String) (key : String) (fallback low high : ℕ)
    → Within low high (pos fallback)
    → Within low high ((integer getenv key (pos fallback) (pos low) (pos high)).0)
unfolding integer reject
integer-Within getenv key fallback low high ok =
    if-value (Within low high) (str_eq (trim_space (getenv key)) "") _ _ ok (
      read-value (Within low high) (parse_int (trim_space (getenv key))) _ _ ok
        (λ value. in_range-Within key fallback low high value ok))

pub duration-Within :
    (getenv : String → String) (parse_duration : String → Option ℤ) (key : String)
    (fallback low high : ℕ)
    → Within low high (pos fallback)
    → Within low high ((duration getenv parse_duration key (pos fallback) (pos low) (pos high)).0)
unfolding duration reject
duration-Within getenv parse_duration key fallback low high ok =
    if-value (Within low high) (str_eq (trim_space (getenv key)) "") _ _ ok (
      read-value (Within low high) (parse_duration (trim_space (getenv key))) _ _ ok
        (λ value. in_range-Within key fallback low high value ok))

pub to_int32-Within :
    (low high : ℕ) (value : ℤ)
    → high < 2 ^ 31
    → Within low high value
    → Within low high (to_int32 value)
unfolding to_int32 Within
to_int32-Within low high (pos n) small ok = ground arith
to_int32-Within low high (negsuc n) small ok = absurd ok

-- No problem in a sequence is none in its parts.
pub quiet-append : (a b : List Problem) → a ++ b ≡ [] → (a ≡ []) × (b ≡ [])
quiet-append [] b quiet = (refl, quiet)
quiet-append (p ∷ a) b quiet = absurd (cc quiet)

pub quiet-bind :
    {A B : Type 0} (m : Loading A) (f : A → Loading B)
    → (m >>= f).1 ≡ []
    → (m.1 ≡ []) × ((f (m.0)).1 ≡ [])
quiet-bind (a, []) f quiet = (refl, quiet)
quiet-bind (a, p ∷ ps) f quiet = absurd (cc quiet)

pub quiet-fail_if : (test : Bool) (p : Problem) → (fail_if test p).1 ≡ [] → test ≡ false
unfolding fail_if
quiet-fail_if true p quiet = absurd (cc quiet)
quiet-fail_if false p quiet = refl

pub quiet-secret :
    (getenv : String → String) (key : String) (least : ℕ)
    → (secret getenv key least).1 ≡ []
    → least ≤ len ((secret getenv key least).0)
unfolding secret fail_if reject
quiet-secret getenv key least quiet = ground arith
