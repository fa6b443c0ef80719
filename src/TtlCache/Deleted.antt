-- ===== src/TtlCache/Deleted.antt =====
-- A key that was deleted (internal/ttlcache/ttlcache.go).
use voting_service.Base.{
  ℕ, String, ◌≡◌, refl, ◌∙◌, ap, none, lookup, lookup-erase, str_eq_iff, ==_iff, Option-cases, inl,
  inr,
}
use voting_service.TtlCache.Sharded
use voting_service.TtlCache.Sharded.{Ttl, shard_for}
use voting_service.TtlCache.Bounds.{IsSound}
use voting_service.TtlCache.Shard.{Shard, get, delete, remove_locked}
use voting_service.TtlCache.Coherent.{IsCoherent, handle, find-handle}

module _ {ℓ} {V : Type ℓ} where
  lookup-delete : (k : String) (s : Shard V) → IsCoherent s → lookup k (delete k s).entries ≡ none
  unfolding delete remove_locked
  lookup-delete k s c = elim (Option-cases (handle k s.order)) [
    | inl absent ↦ rw (c.indexed k, absent, delete) (c.indexed k ∙ absent)
    | inr (e, held) ↦
        let (i, found, at_key, entered, allocated) =
          find-handle k e s.next s.order c.listing held in
        rw (c.indexed k, held, found, delete)
          (lookup-erase i.key k s.entries ∙ rw ((str_eq_iff i.key k).1 at_key) refl)
  ]

  -- A key that was deleted from a coherent shard is a miss, and the read changes nothing.
  pub get-delete :
      (later : ℕ) (k : String) (s : Shard V)
      → IsCoherent s
      → get later k (delete k s) ≡ (none, delete k s)
  unfolding get
  get-delete later k s c = rw (lookup-delete k s c, get) refl

  module _ (hash : String → ℕ) where
    -- The shard of a key misses it, and a read changes nothing there.
    abbrev pub Misses : ℕ → String → Ttl V → Type ℓ
    Misses later k c =
        get later k (c.shards (shard_for hash k)) ≡ (none, c.shards (shard_for hash k))

    pub delete-Misses :
        (n later : ℕ) (k : String) (c : Ttl V)
        → IsSound n c
        → Misses later k (Sharded.delete hash k c)
    unfolding Sharded.delete
    delete-Misses n later k c sound =
        rw ((==_iff (shard_for hash k) (shard_for hash k)).1 refl)
          (get-delete later k (c.shards (shard_for hash k)) (sound.coherent _))

    pub get-none :
        (later : ℕ) (k : String) (c : Ttl V)
        → Misses later k c
        → (Sharded.get hash later k c).0 ≡ none
    unfolding Sharded.get
    get-none later k c miss = ap (λ m. m.0) miss

    pub get-Misses :
        (later : ℕ) (k : String) (c : Ttl V)
        → Misses later k c
        → Misses later k (Sharded.get hash later k c).1
    unfolding Sharded.get
    get-Misses later k c miss =
        rw ((==_iff (shard_for hash k) (shard_for hash k)).1 refl, miss) miss
