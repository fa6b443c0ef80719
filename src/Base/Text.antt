-- ===== src/Base/Text.antt =====
-- Texts as keys: equality, membership in a list of keys, and dictionaries.
use Prim.Native.String.{String}
use mathlib.Core.Bool.{Bool, true, false, ◌||◌, Bool-set}
use mathlib.Core.List.{
  List, [], ◌∷◌, Mem, not-mem-nil, mem-cons_self, mem-cons_of_mem, eq-or-mem_of_mem-cons,
}
use mathlib.Core.Logic.Or
use mathlib.Core.Logic.{◌≢◌, ◌↔◌, inl, inr}
use mathlib.Core.Option.{Option, none, some}
use mathlib.Core.Path.{◌≡◌, refl}
use native.Mathlib.Omega.{arith}
use text.Mathlib.Text.{◌==◌}
use text.Mathlib.TextEquality.{eq_iff}
use text.Mathlib.TextPositions.{eq_refl}
use voting_service.Base.Tests.{if◌then◌else◌, Bool-cases}

-- `a == b` on Go strings.
unfoldable pub str_eq : String → String → Bool
str_eq a b = a == b

pub str_eq_iff : (a b : String) → (str_eq a b ≡ true) ↔ (a ≡ b)
unfolding str_eq
str_eq_iff = eq_iff

pub str_eq_refl : (a : String) → str_eq a a ≡ true
unfolding str_eq
str_eq_refl a = eq_refl a

pub str_eq_ne : (a b : String) → a ≢ b → str_eq a b ≡ false
str_eq_ne a b h = ground (arith, str_eq_iff a b)

-- `_, ok := set[id]` for a set of keys.
unfoldable pub contains : String → List String → Bool
contains a [] = false
contains a (x ∷ xs) = str_eq a x || contains a xs

pub Mem_of_contains : (a : String) (l : List String) → contains a l ≡ true → Mem a l
unfolding contains
Mem_of_contains a [] h = cc
Mem_of_contains a (x ∷ xs) h = elim (Bool-cases (str_eq a x)) [
  | inl e ↦ rw ((str_eq_iff a x).0 e) mem-cons_self
  | inr n ↦ mem-cons_of_mem x (Mem_of_contains a xs (ground (arith, h)))
]

pub contains_of_Mem : (a : String) (l : List String) → Mem a l → contains a l ≡ true
unfolding contains
contains_of_Mem a [] m = absurd (not-mem-nil m)
contains_of_Mem a (x ∷ xs) m =
    Or.elim (Bool-set _ _) (eq-or-mem_of_mem-cons m) (λ e. ground (arith, str_eq_iff a x))
      (λ n. ground (arith, contains_of_Mem a xs n))

-- The Boolean test decides membership.
pub contains_iff : (a : String) (l : List String) → (contains a l ≡ true) ↔ Mem a l
contains_iff a l = (Mem_of_contains a l, contains_of_Mem a l)

pub not-Mem_of_contains : (a : String) (l : List String) → contains a l ≡ false → ¬ Mem a l
not-Mem_of_contains a l h m = cc (contains_of_Mem a l m)

pub contains-false_of_not-Mem : (a : String) (l : List String) → ¬ Mem a l → contains a l ≡ false
contains-false_of_not-Mem a l h = elim (Bool-cases (contains a l)) [
  | inl e ↦ absurd (h (Mem_of_contains a l e))
  | inr e ↦ e
]

-- `map[string]V`, as pairs of a key and its value; the first pair of a key counts.
module _ {κ} {Val : Type κ} where
  -- `value, ok := m[key]`.
  unfoldable pub lookup : String → List (String × Val) → Option Val
  lookup key [] = none
  lookup key ((held, value) ∷ rest) =
      let below = lookup key rest in if str_eq held key then some value else below

  -- `m[key] = value`.
  unfoldable pub insert : String → Val → List (String × Val) → List (String × Val)
  insert key new [] = (key, new) ∷ []
  insert key new ((held, value) ∷ rest) =
      let below = insert key new rest in
      if str_eq held key then (key, new) ∷ rest else (held, value) ∷ below

  -- `delete(m, key)`.
  unfoldable pub erase : String → List (String × Val) → List (String × Val)
  erase key [] = []
  erase key ((held, value) ∷ rest) =
      let below = erase key rest in if str_eq held key then below else (held, value) ∷ below

  pub lookup-insert :
      (key other : String) (new : Val) (pairs : List (String × Val))
      → lookup other (insert key new pairs)
        ≡ (if str_eq key other then some new else lookup other pairs)
  unfolding insert lookup
  lookup-insert key other new [] = refl
  lookup-insert key other new ((held, value) ∷ rest) =
      let below = lookup-insert key other new rest in
      ground (arith, below, str_eq_iff held other, str_eq_iff held key, str_eq_iff key other)

  pub lookup-erase :
      (key other : String) (pairs : List (String × Val))
      → lookup other (erase key pairs) ≡ (if str_eq key other then none else lookup other pairs)
  unfolding erase lookup
  lookup-erase key other [] = ground arith
  lookup-erase key other ((held, value) ∷ rest) =
      let below = lookup-erase key other rest in
      ground (arith, below, str_eq_iff held other, str_eq_iff held key, str_eq_iff key other)
