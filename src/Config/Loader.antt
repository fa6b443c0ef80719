-- ===== src/Config/Loader.antt =====
-- `loader` (internal/config/config.go). The environment is a function, "" for an unset variable. The
-- problems that a reader finds stand beside its value: a method that calls `l.fail` adds to them.
-- `time.ParseDuration` and `netip.ParsePrefix` are parameters.
use Prim.Native.String.{len}
use voting_service.Base.{
  ℕ, ◌-◌, ◌%◌, ◌^◌, String, Bool, true, false, ◌||◌, Option, none, some, List, [], ◌∷◌, ◌++◌, ltb,
  if◌then◌else◌, str_eq, contains, trim_space, parse_int, equal_fold, to_lower, split_at,
}
use voting_service.Base.Int.{ℤ, pos, negsuc, sub_ℕ, ltb_ℤ}

-- The texts of `l.fail`, by what they say.
pub data Problem : Type 0 where
  required : String → Problem
  secret_required : String → Problem
  too_short : String → ℕ → Problem
  not_an_integer not_a_duration not_a_boolean not_a_cidr : String → String → Problem
  out_of_range : String → ℤ → ℤ → ℤ → Problem
  not_one_of : String → List String → String → Problem
  inconsistent : String → Problem

-- A value, and the problems that were found on the way.
abbrev pub Loading : Type 0 → Type 0
Loading A = A × List Problem

abbrev pub pure : {A : Type 0} → A → Loading A
pure a = (a, [])

infixl 5 ◌>>=◌ ◌>>◌
abbrev pub ◌>>=◌ : {A B : Type 0} → Loading A → (A → Loading B) → Loading B
m >>= f = let (b, more) = f m.0 in (b, m.1 ++ more)

abbrev pub ◌>>◌ : {A B : Type 0} → Loading A → Loading B → Loading B
m >> k = m >>= λ _. k

-- `l.fail`.
abbrev pub fail : Problem → Loading (Unit {0})
fail p = (tt, p ∷ [])

-- `if test { l.fail(…) }`.
unfoldable pub fail_if : Bool → Problem → Loading (Unit {0})
fail_if test p = if test then fail p else pure tt

-- `if test { l.fail(…) }` after which a value is returned.
unfoldable pub reject : {A : Type 0} → A → Problem → Loading A
reject fallback p = (fallback, p ∷ [])

-- `int32(n)`.
unfoldable pub to_int32 : ℤ → ℤ
to_int32 (pos n) = let low = n % 2 ^ 32 in if ltb low (2 ^ 31) then pos low else sub_ℕ low (2 ^ 32)
to_int32 (negsuc n) =
    let low = 2 ^ 32 - 1 - n % 2 ^ 32 in if ltb low (2 ^ 31) then pos low else sub_ℕ low (2 ^ 32)

-- `strconv.ParseBool`.
unfoldable pub parse_bool : String → Option Bool
parse_bool raw =
    if contains raw ("1" ∷ "t" ∷ "T" ∷ "true" ∷ "TRUE" ∷ "True" ∷ [])
    then some true
    else if contains raw ("0" ∷ "f" ∷ "F" ∷ "false" ∷ "FALSE" ∷ "False" ∷ [])
    then some false
    else none

-- The end of `integer` and `duration`: the range check on a value that was read.
unfoldable pub in_range : String → ℤ → ℤ → ℤ → ℤ → Loading ℤ
in_range key fallback minimum maximum value =
    if ltb_ℤ value minimum || ltb_ℤ maximum value
    then reject fallback (out_of_range key minimum maximum value)
    else pure value

-- The loop of `stringList`: parts that are blank are left out.
unfoldable pub keep_parts : List String → List String
keep_parts [] = []
keep_parts (part ∷ parts) =
    let rest = keep_parts parts in
    if str_eq (trim_space part) "" then rest else trim_space part ∷ rest

-- The loop of `oneOf`.
unfoldable pub any_fold : String → List String → Bool
any_fold value [] = false
any_fold value (candidate ∷ allowed) = equal_fold value candidate || any_fold value allowed

module _ (getenv : String → String) where
  -- `requiredString`.
  unfoldable pub required_string : String → Loading String
  required_string key =
      (trim_space (getenv key), (fail_if (str_eq (trim_space (getenv key)) "") (required key)).1)

  -- `optionalString`.
  unfoldable pub optional_string : String → String → Loading String
  optional_string key fallback =
      pure (if str_eq (trim_space (getenv key)) "" then fallback else trim_space (getenv key))

  -- `secret`.
  unfoldable pub secret : String → ℕ → Loading String
  secret key min_length =
      if str_eq (getenv key) ""
      then reject "" (secret_required key)
      else (getenv key, (fail_if (ltb (len (getenv key)) min_length) (too_short key min_length)).1)

  -- `integer`.
  unfoldable pub integer : String → ℤ → ℤ → ℤ → Loading ℤ
  integer key fallback minimum maximum =
      if str_eq (trim_space (getenv key)) ""
      then pure fallback
      else elim (parse_int (trim_space (getenv key))) [
        | none ↦ reject fallback (not_an_integer key (trim_space (getenv key)))
        | some value ↦ in_range key fallback minimum maximum value
      ]

  -- `duration`.
  unfoldable pub duration : (String → Option ℤ) → String → ℤ → ℤ → ℤ → Loading ℤ
  duration parse_duration key fallback minimum maximum =
      if str_eq (trim_space (getenv key)) ""
      then pure fallback
      else elim (parse_duration (trim_space (getenv key))) [
        | none ↦ reject fallback (not_a_duration key (trim_space (getenv key)))
        | some value ↦ in_range key fallback minimum maximum value
      ]

  -- `boolean`.
  unfoldable pub boolean : String → Bool → Loading Bool
  boolean key fallback =
      if str_eq (trim_space (getenv key)) ""
      then pure fallback
      else elim (parse_bool (trim_space (getenv key))) [
        | none ↦ reject fallback (not_a_boolean key (trim_space (getenv key)))
        | some value ↦ pure value
      ]

  -- `stringList`.
  unfoldable pub string_list : String → List String
  string_list key =
      if str_eq (trim_space (getenv key)) ""
      then []
      else keep_parts (split_at b',' (trim_space (getenv key)))

  -- The loop of `prefixList`.
  unfoldable pub read_prefixes :
      {Prefix : Type 0} → (String → Option Prefix) → String → List String → Loading (List Prefix)
  read_prefixes parse_prefix key [] = pure []
  read_prefixes parse_prefix key (entry ∷ entries) =
      let (prefixes, problems) = read_prefixes parse_prefix key entries in
      elim (parse_prefix entry) [
        | none ↦ (prefixes, not_a_cidr key entry ∷ problems)
        | some prefix ↦ (prefix ∷ prefixes, problems)
      ]

  -- `prefixList`.
  unfoldable pub prefix_list :
      {Prefix : Type 0} → (String → Option Prefix) → String → Loading (List Prefix)
  prefix_list parse_prefix key = read_prefixes parse_prefix key (string_list key)

  -- `oneOf`.
  unfoldable pub one_of : String → String → List String → Loading String
  one_of key fallback allowed =
      let value = (optional_string key fallback).0 in
      if any_fold value allowed
      then pure (to_lower value)
      else reject fallback (not_one_of key allowed value)
