-- ===== src/VoteService/Hash.antt =====
-- The identity that a voter is deduplicated by (internal/service/vote.go).
use voting_service.Base.{ℕ, ◌<◌, ◌≡◌, refl, String, List, [], ◌∷◌, ◌++◌, arith, bytes}
use voting_service.VoteService.Cast.{hash_input}

abbrev pub NoZero : List ℕ → Type 0
NoZero [] = Unit
NoZero (b ∷ bs) = (0 < b) × NoZero bs

split_unique :
    (xs us ys vs : List ℕ)
    → NoZero xs
    → NoZero us
    → xs ++ (0 ∷ ys) ≡ us ++ (0 ∷ vs)
    → (xs ≡ us) × (ys ≡ vs)
split_unique [] [] ys vs p q e = (refl, cc)
split_unique [] (u ∷ us) ys vs p q e = ground arith
split_unique (x ∷ xs) [] ys vs p q e = ground arith
split_unique (x ∷ xs) (u ∷ us) ys vs p q e =
    let (heads, tails) = split_unique xs us ys vs p.1 q.1 (cc) in (cc, tails)

-- Two pairs of a poll and a token that are digested from the same bytes have the same poll and the
-- same token, byte by byte, if neither poll identifier has a zero byte: the separator keeps the
-- two apart.
pub hash_input_injective :
    (p t q u : String)
    → NoZero (bytes p)
    → NoZero (bytes q)
    → hash_input p t ≡ hash_input q u
    → (bytes p ≡ bytes q) × (bytes t ≡ bytes u)
unfolding hash_input
hash_input_injective p t q u hp hq e = split_unique (bytes p) (bytes q) (bytes t) (bytes u) hp hq e
