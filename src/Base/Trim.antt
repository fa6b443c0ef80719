-- ===== src/Base/Trim.antt =====
-- `strings.TrimSpace` and the bytes of a Go string.
use Prim.Native.Char.{Char, code}
use Prim.Native.Nat.{ℕ, ◌+◌, ◌/◌, ◌%◌}
use Prim.Native.String.{String}
use mathlib.Core.Bool.{Bool, false, ◌&&◌, ◌||◌}
use mathlib.Core.List.{List, [], ◌∷◌, ◌++◌}
use mathlib.Core.Logic.{◌≢◌, ◌⊎◌, inl, inr}
use mathlib.Core.Path.{◌≡◌, refl}
use voting_service.Base.Tests.{ltb, leb, ◌==◌, if◌then◌else◌, Bool-cases}

-- `unicode.IsSpace`, on the code point.
unfoldable pub is_space : ℕ → Bool
is_space c =
    (leb 9 c && leb c 13)
    || (c == 32
        || (c == 0x85
            || (c == 0xa0
                || (c == 0x1680
                    || ((leb 0x2000 c && leb c 0x200a)
                        || (c == 0x2028
                            || (c == 0x2029 || (c == 0x202f || (c == 0x205f || c == 0x3000)))))))))

trim_left : String → String
trim_left String.[] = ""
trim_left (String.◌∷◌ c s) = if is_space (code c) then trim_left s else String.◌∷◌ c s

-- A space goes if nothing stays behind it.
join_right : Char → String → String
join_right c String.[] = if is_space (code c) then "" else String.◌∷◌ c ""
join_right c (String.◌∷◌ d s) = String.◌∷◌ c (String.◌∷◌ d s)

trim_right : String → String
trim_right String.[] = ""
trim_right (String.◌∷◌ c s) = join_right c (trim_right s)

unfoldable pub trim_space : String → String
unfolding is_space trim_left join_right trim_right
trim_space s = trim_right (trim_left s)

-- Some character of a text is not white space.
abbrev pub HasInk : String → Type 0
HasInk String.[] = ⊥
HasInk (String.◌∷◌ c s) = (is_space (code c) ≡ false) ⊎ HasInk s

join_right-HasInk :
    (c : Char) (s : String) → (s ≢ "" → HasInk s) → join_right c s ≢ "" → HasInk (join_right c s)
unfolding join_right
join_right-HasInk c String.[] ink h = elim (Bool-cases (is_space (code c))) [
  | inl space ↦ absurd (h (rw space refl))
  | inr mark ↦ rw mark (inl mark)
]
join_right-HasInk c (String.◌∷◌ d s) ink h = inr (ink (λ e. cc e))

trim_right-HasInk : (s : String) → trim_right s ≢ "" → HasInk (trim_right s)
unfolding trim_right
trim_right-HasInk String.[] h = absurd (h refl)
trim_right-HasInk (String.◌∷◌ c s) h = join_right-HasInk c (trim_right s) (trim_right-HasInk s) h

-- What is left of a text that is not blank is not blank.
pub trim_space-HasInk : (s : String) → trim_space s ≢ "" → HasInk (trim_space s)
unfolding trim_space
trim_space-HasInk s h = trim_right-HasInk (trim_left s) h

-- UTF-8.
abbrev encode : ℕ → List ℕ
encode c =
    if ltb c 0x80
    then c ∷ []
    else if ltb c 0x800
    then (0xc0 + c / 0x40) ∷ (0x80 + c % 0x40) ∷ []
    else if ltb c 0x10000
    then (0xe0 + c / 0x1000) ∷ (0x80 + c / 0x40 % 0x40) ∷ (0x80 + c % 0x40) ∷ []
    else (0xf0 + c / 0x40000)
      ∷ (0x80 + c / 0x1000 % 0x40)
      ∷ (0x80 + c / 0x40 % 0x40)
      ∷ (0x80 + c % 0x40)
      ∷ []

-- `[]byte(s)`.
unfoldable pub bytes : String → List ℕ
bytes String.[] = []
bytes (String.◌∷◌ c s) = encode (code c) ++ bytes s
