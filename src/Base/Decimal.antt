-- ===== src/Base/Decimal.antt =====
-- Decimal numerals: `strconv.Itoa` and `%d` on numbers of zero or more, and `strconv.ParseInt` in
-- base 10 at 64 bits.
use Prim.Native.Char.{Char, code}
use Prim.Native.Nat.{ℕ, zero, suc, ◌+◌, ◌*◌, ◌/◌, ◌%◌, ◌-◌, ◌<◌, ◌^◌}
use Prim.Native.String.{String}
use mathlib.Core.Bool.{false, ◌&&◌}
use mathlib.Core.Logic.{inl, inr}
use mathlib.Core.Option.{Option, none, some}
use mathlib.Core.Path.{◌≡◌, refl, ap, sym, ◌∙◌}
use native.Mathlib.Omega.{arith}
use voting_service.Base.Int.{ℤ, pos, negsuc}
use voting_service.Base.Tests.{ltb, leb, ◌==◌, if◌then◌else◌, Bool-cases}

digit_char : ℕ → Char
digit_char zero = "0"
digit_char (suc zero) = "1"
digit_char (suc (suc zero)) = "2"
digit_char (suc (suc (suc zero))) = "3"
digit_char (suc (suc (suc (suc zero)))) = "4"
digit_char (suc (suc (suc (suc (suc zero))))) = "5"
digit_char (suc (suc (suc (suc (suc (suc zero)))))) = "6"
digit_char (suc (suc (suc (suc (suc (suc (suc zero))))))) = "7"
digit_char (suc (suc (suc (suc (suc (suc (suc (suc zero)))))))) = "8"
digit_char _ = "9"

digit_value : Char → Option ℕ
digit_value c = if leb b'0' (code c) && leb (code c) b'9' then some (code c - b'0') else none

-- The digits of `n` before `rest`; `n` falls by a factor of ten, so fuel above `n` is enough.
decimal_from : ℕ → ℕ → String → String
decimal_from zero n rest = rest
decimal_from (suc fuel) n rest =
    let more = decimal_from fuel (n / 10) (String.◌∷◌ (digit_char (n % 10)) rest) in
    if ltb n 10 then String.◌∷◌ (digit_char n) rest else more

unfoldable pub decimal : ℕ → String
unfolding decimal_from digit_char
decimal n = decimal_from (suc n) n ""

parse_digits : ℕ → String → Option ℕ
parse_digits acc String.[] = some acc
parse_digits acc (String.◌∷◌ c s) = elim (digit_value c) [
  | none ↦ none
  | some d ↦ parse_digits (acc * 10 + d) s
]

-- One digit at least.
parse_unsigned : String → Option ℕ
parse_unsigned String.[] = none
parse_unsigned (String.◌∷◌ c s) = parse_digits 0 (String.◌∷◌ c s)

abbrev in_int64_pos : ℕ → Option ℤ
in_int64_pos n = if ltb n (2 ^ 63) then some (pos n) else none

abbrev in_int64_neg : ℕ → Option ℤ
in_int64_neg zero = some (pos 0)
in_int64_neg (suc n) = if ltb n (2 ^ 63) then some (negsuc n) else none

-- `strconv.ParseInt(raw, 10, 64)`, with `none` for a syntax or range error.
unfoldable pub parse_int : String → Option ℤ
unfolding parse_unsigned parse_digits digit_value
parse_int String.[] = none
parse_int (String.◌∷◌ c s) =
    if code c == b'-'
    then elim (parse_unsigned s) [ none ↦ none | some n ↦ in_int64_neg n ]
    else if code c == b'+'
    then elim (parse_unsigned s) [ none ↦ none | some n ↦ in_int64_pos n ]
    else elim (parse_digits 0 (String.◌∷◌ c s)) [ none ↦ none | some n ↦ in_int64_pos n ]

digit_value-digit_char : (d : ℕ) → d < 10 → digit_value (digit_char d) ≡ some d
unfolding digit_value digit_char
digit_value-digit_char zero h = refl
digit_value-digit_char (suc zero) h = refl
digit_value-digit_char (suc (suc zero)) h = refl
digit_value-digit_char (suc (suc (suc zero))) h = refl
digit_value-digit_char (suc (suc (suc (suc zero)))) h = refl
digit_value-digit_char (suc (suc (suc (suc (suc zero))))) h = refl
digit_value-digit_char (suc (suc (suc (suc (suc (suc zero)))))) h = refl
digit_value-digit_char (suc (suc (suc (suc (suc (suc (suc zero))))))) h = refl
digit_value-digit_char (suc (suc (suc (suc (suc (suc (suc (suc zero)))))))) h = refl
digit_value-digit_char (suc (suc (suc (suc (suc (suc (suc (suc (suc zero))))))))) h = refl
digit_value-digit_char (suc (suc (suc (suc (suc (suc (suc (suc (suc (suc n)))))))))) h =
    absurd (omega arith)

parse_digits_cons :
    (acc d : ℕ) (s : String)
    → d < 10
    → parse_digits acc (String.◌∷◌ (digit_char d) s) ≡ parse_digits (acc * 10 + d) s
unfolding parse_digits
parse_digits_cons acc d s h = rw (digit_value-digit_char d h, parse_digits)

parse_digits-decimal_from :
    (fuel n : ℕ) (rest : String)
    → n < fuel
    → parse_digits 0 (decimal_from fuel n rest) ≡ parse_digits n rest
unfolding decimal_from
parse_digits-decimal_from zero n rest h = absurd (omega arith)
parse_digits-decimal_from (suc fuel) n rest h = elim (Bool-cases (ltb n 10)) [
  | inl small ↦
      rw (small, parse_digits_cons 0 n rest (ground arith))
        (ap (λ k. parse_digits k rest) (let e : 0 * 10 + n ≡ n = omega arith in e))
  | inr large ↦ rw large (
      parse_digits-decimal_from fuel (n / 10) (String.◌∷◌ (digit_char (n % 10)) rest) (ground arith)
      ∙ parse_digits_cons (n / 10) (n % 10) rest (omega arith)
      ∙ ap (λ k. parse_digits k rest) (let e : n / 10 * 10 + n % 10 ≡ n = omega arith in e))
]

parse_digits-decimal : (n : ℕ) → parse_digits 0 (decimal n) ≡ some n
unfolding decimal parse_digits
parse_digits-decimal n = parse_digits-decimal_from (suc n) n "" (omega arith)

-- Different numbers have different numerals.
pub decimal_injective : (m n : ℕ) → decimal m ≡ decimal n → m ≡ n
decimal_injective m n e = cc (ap (parse_digits 0) e, parse_digits-decimal m, parse_digits-decimal n)

-- A numeral begins with a digit.
decimal_from-head :
    (fuel n : ℕ) (rest : String)
    → n < fuel
    → (d : ℕ) × (s : String) × (d < 10) × (decimal_from fuel n rest ≡ String.◌∷◌ (digit_char d) s)
unfolding decimal_from
decimal_from-head zero n rest h = absurd (omega arith)
decimal_from-head (suc fuel) n rest h = elim (Bool-cases (ltb n 10)) [
  | inl small ↦ rw small (n, rest, ground (arith, small), refl)
  | inr large ↦ rw large (
      decimal_from-head fuel (n / 10) (String.◌∷◌ (digit_char (n % 10)) rest)
        (ground (arith, large)))
]

unsigned_digit :
    (d : ℕ) → d < 10 → (code (digit_char d) == b'-' ≡ false) × (code (digit_char d) == b'+' ≡ false)
unfolding digit_char
unsigned_digit zero h = (refl, refl)
unsigned_digit (suc zero) h = (refl, refl)
unsigned_digit (suc (suc zero)) h = (refl, refl)
unsigned_digit (suc (suc (suc zero))) h = (refl, refl)
unsigned_digit (suc (suc (suc (suc zero)))) h = (refl, refl)
unsigned_digit (suc (suc (suc (suc (suc zero))))) h = (refl, refl)
unsigned_digit (suc (suc (suc (suc (suc (suc zero)))))) h = (refl, refl)
unsigned_digit (suc (suc (suc (suc (suc (suc (suc zero))))))) h = (refl, refl)
unsigned_digit (suc (suc (suc (suc (suc (suc (suc (suc zero)))))))) h = (refl, refl)
unsigned_digit (suc (suc (suc (suc (suc (suc (suc (suc (suc zero))))))))) h = (refl, refl)
unsigned_digit (suc (suc (suc (suc (suc (suc (suc (suc (suc (suc n)))))))))) h =
    absurd (omega arith)

parse_int_digit :
    (d : ℕ) (s : String)
    → d < 10
    → parse_int (String.◌∷◌ (digit_char d) s)
      ≡ (elim (parse_digits 0 (String.◌∷◌ (digit_char d) s)) as (λ _. Option ℤ) [
        | none ↦ none
        | some n ↦ in_int64_pos n
      ])
unfolding parse_int
parse_int_digit d s h = rw ((unsigned_digit d h).0, (unsigned_digit d h).1) refl

parse_int_text :
    (text : String) (n d : ℕ) (s : String)
    → d < 10
    → text ≡ String.◌∷◌ (digit_char d) s
    → parse_digits 0 text ≡ some n
    → n < 2 ^ 63
    → parse_int text ≡ some (pos n)
parse_int_text text n d s small e read room =
    let read' : parse_digits 0 (String.◌∷◌ (digit_char d) s) ≡ some n =
      ap (parse_digits 0) (sym e) ∙ read in
    rw (e, parse_int_digit d s small, read') (ground (arith, room))

-- The numeral of a number below the range of 64 bits is read back.
pub parse_int-decimal : (n : ℕ) → n < 2 ^ 63 → parse_int (decimal n) ≡ some (pos n)
unfolding decimal
parse_int-decimal n h =
    let (d, s, small, e) = decimal_from-head (suc n) n "" (omega arith) in
    parse_int_text (decimal n) n d s small e (parse_digits-decimal n) h
