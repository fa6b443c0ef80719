-- ===== src/TtlCache/Sharded.antt =====
-- The cache over its sixteen shards (internal/ttlcache/ttlcache.go). The seeded hash of the runtime
-- is a parameter; a call works on the shard of its key alone.
use voting_service.Base.{ℕ, ◌/◌, ◌%◌, String, Option, ltb, ◌==◌, if◌then◌else◌}
use voting_service.Base.Int.{ℤ}
use voting_service.TtlCache.Shard
use voting_service.TtlCache.Shard.{Item, Shard, new_shard}

abbrev pub shard_count : ℕ
shard_count = 16

-- The array of shards, by index.
pub record Ttl {ℓ} (V : Type ℓ) : Type ℓ where
  pub shards : ℕ → Shard V

abbrev pub per_shard : ℕ → ℕ
per_shard capacity = if ltb (capacity / shard_count) 1 then 1 else capacity / shard_count

-- `NewTTL`.
unfoldable pub new_ttl {ℓ} : {V : Type ℓ} → ℕ → Ttl V
new_ttl capacity = record { shards = λ i. new_shard (per_shard capacity) }

-- `shardFor`.
abbrev pub shard_for : (String → ℕ) → String → ℕ
shard_for hash key = hash key % shard_count

module _ {ℓ} {V : Type ℓ} where
  abbrev pub put_shard : ℕ → Shard V → Ttl V → Ttl V
  put_shard i s c = record { shards = λ j. if i == j then s else c.shards j }

  module _ (hash : String → ℕ) where
    -- `TTL.Get`, `TTL.Set` and `TTL.Delete` at the time `now`.
    unfoldable pub get : ℕ → String → Ttl V → Option V × Ttl V
    get now key c =
        let (value, s) = Shard.get now key (c.shards (shard_for hash key)) in
        (value, put_shard (shard_for hash key) s c)

    unfoldable pub set : ℕ → String → V → ℤ → Ttl V → Ttl V
    set now key value ttl c =
        put_shard (shard_for hash key) (Shard.set now key value ttl (c.shards (shard_for hash key)))
          c

    unfoldable pub delete : String → Ttl V → Ttl V
    delete key c =
        put_shard (shard_for hash key) (Shard.delete key (c.shards (shard_for hash key))) c
