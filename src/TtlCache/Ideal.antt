-- ===== src/TtlCache/Ideal.antt =====
-- The cache as a list of entries without handles, most recently used first: what a shard
-- (internal/ttlcache/ttlcache.go) means.
use voting_service.Base.{
  ℕ, zero, suc, ◌+◌, String, Option, none, some, List, [], ◌∷◌, take, ltb, if◌then◌else◌, str_eq,
}
use voting_service.Base.Int.{ℤ, pos, negsuc}
use voting_service.TtlCache.Shard.{Item}

module _ {ℓ} {V : Type ℓ} where
  -- The entry of a key.
  unfoldable pub entry : String → List (Item V) → Option (Item V)
  entry k [] = none
  entry k (i ∷ l) = if str_eq i.key k then some i else entry k l

  unfoldable pub without : String → List (Item V) → List (Item V)
  without k [] = []
  without k (i ∷ l) = if str_eq i.key k then l else i ∷ without k l

  -- A live entry is returned and becomes the first; an expired one is dropped.
  unfoldable pub read : ℕ → String → List (Item V) → Option V × List (Item V)
  read now k l = elim (entry k l) [
    | none ↦ (none, l)
    | some i ↦ if ltb i.expires_at now then (none, without k l) else (some i.value, i ∷ without k l)
  ]

  -- The new entry becomes the first, and the first `capacity` entries stay.
  unfoldable pub write : ℕ → ℕ → String → V → ℤ → List (Item V) → List (Item V)
  write capacity now k v (negsuc n) l = l
  write capacity now k v (pos zero) l = l
  write capacity now k v (pos (suc n)) l =
      take capacity (record { key = k; value = v; expires_at = now + suc n } ∷ without k l)
