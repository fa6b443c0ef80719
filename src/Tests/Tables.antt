-- ===== src/Tests/Tables.antt =====
-- Counts as a list, for the examples of the results.
use voting_service.Base.{ℕ, refl, String, List, [], ◌∷◌, arith, contains, str_eq_iff, lookup}
use voting_service.Base.Int.{pos}
use voting_service.Ports.{Counts}
use voting_service.VoteStore.Replies.{Holds}

abbrev pub listing : List String → (String → ℕ) → Counts
listing [] g = []
listing (o ∷ ids) g = (o, pos (g o)) ∷ listing ids g

pub listing-Holds : (ids : List String) (g : String → ℕ) → Holds ids g (listing ids g)
unfolding lookup contains
listing-Holds [] g o = refl
listing-Holds (id ∷ ids) g o =
    ground (arith, listing-Holds ids g o, str_eq_iff id o, str_eq_iff o id)
