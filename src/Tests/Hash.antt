-- ===== src/Tests/Hash.antt =====
-- A hash of counters as a Redis server keeps it: every field once, each number in the range of 64
-- bits, for the server of the examples.
use voting_service.Base.{
  ℕ, suc, ◌<◌, ◌^◌, String, false, ◌||◌, ◌≡◌, refl, ◌∙◌, ap, List, [], ◌∷◌, map, arith, ltb,
  if◌then◌else◌, str_eq, str_eq_iff, contains, decimal, Bool-cases, inl, inr, parse_int-decimal,
}
use voting_service.Redis.{IsReply, value_in}

abbrev pub Hash : Type 0
Hash = List (String × ℕ)

abbrev pub names : Hash → List String
names h = map (λ x. x.0) h

abbrev pub Sound : Hash → Type 0
Sound [] = Unit
Sound ((f, n) ∷ h) = (n < 2 ^ 63) × (contains f (names h) ≡ false) × Sound h

abbrev pub value : String → Hash → ℕ
value f [] = 0
value f ((g, n) ∷ h) = if str_eq g f then n else value f h

-- One more, as far as the range allows.
abbrev next : ℕ → ℕ
next n = if ltb (suc n) (2 ^ 63) then suc n else n

abbrev pub raise_field : String → Hash → Hash
raise_field f [] = (f, 1) ∷ []
raise_field f ((g, n) ∷ h) =
    let rest = raise_field f h in if str_eq g f then (g, next n) ∷ h else (g, n) ∷ rest

abbrev pub texts : Hash → List (String × String)
texts [] = []
texts ((f, n) ∷ h) = (f, decimal n) ∷ texts h

raise_field-names :
    (f g : String) (h : Hash)
    → contains g (names (raise_field f h)) ≡ (str_eq g f || contains g (names h))
unfolding contains
raise_field-names f g [] = ground arith
raise_field-names f g ((k, n) ∷ h) =
    ground (arith, raise_field-names f g h, str_eq_iff k f, str_eq_iff g f, str_eq_iff g k)

pub raise_field-Sound : (f : String) (h : Hash) → Sound h → Sound (raise_field f h)
unfolding contains
raise_field-Sound f [] s = (ground arith, refl, tt)
raise_field-Sound f ((g, n) ∷ h) (room, absent, s) = elim (Bool-cases (str_eq g f)) [
  | inl same ↦ rw same (ground arith, absent, s)
  | inr other ↦
      rw other
        (room, raise_field-names f g h ∙ ground (arith, absent, other), raise_field-Sound f h s)
]

pub raise_field-value :
    (f g : String) (h : Hash)
    → suc (value f h) < 2 ^ 63
    → value g (raise_field f h) ≡ (if str_eq f g then suc (value f h) else value g h)
raise_field-value f g [] room = ground arith
raise_field-value f g ((k, n) ∷ h) room = elim (Bool-cases (str_eq k f)) [
  | inl same ↦ rw same (ground (arith, room, str_eq_iff k f, same))
  | inr other ↦ rw other (
      ground (
        arith,
        raise_field-value f g h (ground (arith, room, other)),
        str_eq_iff k f,
        str_eq_iff f g,
        other,
      ))
]

texts-names : (h : Hash) → map (λ x. x.0) (texts h) ≡ names h
texts-names [] = refl
texts-names ((f, n) ∷ h) = ap (λ l. f ∷ l) (texts-names h)

pub texts-IsReply : (h : Hash) → Sound h → IsReply (texts h)
texts-IsReply [] s = tt
texts-IsReply ((f, n) ∷ h) (room, absent, s) =
    ((n, parse_int-decimal n room), rw (texts-names h) absent, texts-IsReply h s)

pub texts-value : (f : String) (h : Hash) → Sound h → value_in f (texts h) ≡ value f h
texts-value f [] s = refl
texts-value f ((g, n) ∷ h) (room, absent, s) = rw (parse_int-decimal n room, texts-value f h s) refl
