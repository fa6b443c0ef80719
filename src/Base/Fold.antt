-- ===== src/Base/Fold.antt =====
-- `strings.Split` at one character, and `strings.ToLower` and `strings.EqualFold` where the text that
-- is compared with is ASCII: outside ASCII only the Kelvin sign and the long s fold to a letter of it.
use Prim.Native.Char.{Char, char, code}
use Prim.Native.Nat.{ℕ}
use Prim.Native.String.{String}
use mathlib.Core.Bool.{Bool}
use mathlib.Core.List.{List, [], ◌∷◌}
use voting_service.Base.Tests.{◌==◌, if◌then◌else◌}
use voting_service.Base.Text.{str_eq}

-- A letter and its lower case.
lower_pairs : List (Char × Char)
lower_pairs =
    ("A", "a")
    ∷ ("B", "b")
    ∷ ("C", "c")
    ∷ ("D", "d")
    ∷ ("E", "e")
    ∷ ("F", "f")
    ∷ ("G", "g")
    ∷ ("H", "h")
    ∷ ("I", "i")
    ∷ ("J", "j")
    ∷ ("K", "k")
    ∷ ("L", "l")
    ∷ ("M", "m")
    ∷ ("N", "n")
    ∷ ("O", "o")
    ∷ ("P", "p")
    ∷ ("Q", "q")
    ∷ ("R", "r")
    ∷ ("S", "s")
    ∷ ("T", "t")
    ∷ ("U", "u")
    ∷ ("V", "v")
    ∷ ("W", "w")
    ∷ ("X", "x")
    ∷ ("Y", "y")
    ∷ ("Z", "z")
    ∷ (char 0x212a tt, "k")
    ∷ []

-- The long s folds to an s, and is its own lower case.
fold_pairs : List (Char × Char)
unfolding lower_pairs
fold_pairs = (char 0x17f tt, "s") ∷ lower_pairs

swap_char : List (Char × Char) → Char → Char
swap_char [] c = c
swap_char ((from, to) ∷ pairs) c = if code from == code c then to else swap_char pairs c

map_chars : (Char → Char) → String → String
map_chars f String.[] = ""
map_chars f (String.◌∷◌ c s) = String.◌∷◌ (f c) (map_chars f s)

-- `strings.ToLower`.
unfoldable pub to_lower : String → String
unfolding lower_pairs swap_char map_chars
to_lower s = map_chars (swap_char lower_pairs) s

-- `strings.EqualFold`.
unfoldable pub equal_fold : String → String → Bool
unfolding lower_pairs fold_pairs swap_char map_chars
equal_fold a b = str_eq (map_chars (swap_char fold_pairs) a) (map_chars (swap_char fold_pairs) b)

-- The text up to the next separator, and the texts after it.
split_head : Char → List String → List String
split_head c [] = String.◌∷◌ c "" ∷ []
split_head c (part ∷ parts) = String.◌∷◌ c part ∷ parts

-- `strings.Split` at the character with the given code.
unfoldable pub split_at : ℕ → String → List String
unfolding split_head
split_at sep String.[] = "" ∷ []
split_at sep (String.◌∷◌ c s) =
    let rest = split_at sep s in if code c == sep then "" ∷ rest else split_head c rest
