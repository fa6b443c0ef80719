-- ===== src/PollCache/Fresh.antt =====
-- What a cached poll answers, and for how long (internal/pollcache/cache.go).
use voting_service.Base.{ℕ, ◌+◌, ◌≤◌, ◌<◌, ◌≡◌, refl, ◌∙◌, String, false, ltb, some, none, arith}
use voting_service.Base.Int.{pos}
use voting_service.Entity.Errors.{ok}
use voting_service.TtlCache.Sharded
use voting_service.TtlCache.Bounds.{IsSound, get-set}
use voting_service.TtlCache.Deleted.{delete-Misses, get-none, get-Misses}
use voting_service.Entity.Poll.{Poll}
use voting_service.PollCache.Cache.{
  Entry, SharedStore, Origin, Config, State, unwrap, local_ttl_for, keep, poll, invalidate, resolve,
  from_shared, ask_origin, from_origin, save, unwrapped,
}

module _ {W : Type 0} (hash : String → ℕ) (shared : SharedStore W) (origin : Origin W)
    (cfg : Config) where
  kept_until :
      (n ttl now later : ℕ) (id : String) (entry : Entry) (s : State W)
      → IsSound n s.local
      → local_ttl_for cfg entry ≡ pos ttl
      → 0 < ttl
      → later ≤ now + ttl
      → (Sharded.get hash later id (keep hash shared origin cfg now id entry s).local).0
        ≡ some entry
  unfolding keep
  kept_until n ttl now later id entry s sound life alive early =
      let live : ltb (now + ttl) later ≡ false = ground (arith, early) in
      rw life (get-set hash n s.local now later id entry ttl sound alive ∙ rw live refl)

  keep_world :
      (now : ℕ) (id : String) (entry : Entry) (s : State W)
      → (keep hash shared origin cfg now id entry s).world ≡ s.world
  unfolding keep
  keep_world now id entry s = refl

  -- An entry that was just stored in a sound local tier, with a positive lifetime, answers the
  -- next call for its poll if the lifetime is not over, a missing poll included, and neither the
  -- shared store nor the origin is asked.
  pub poll-keep :
      (n ttl now later : ℕ) (id : String) (entry : Entry) (s : State W)
      → IsSound n s.local
      → local_ttl_for cfg entry ≡ pos ttl
      → 0 < ttl
      → later ≤ now + ttl
      → ((poll hash shared origin cfg later id (keep hash shared origin cfg now id entry s)).0
          ≡ unwrap entry)
        × ((poll hash shared origin cfg later id
              (keep hash shared origin cfg now id entry s)).1.world
            ≡ s.world)
  unfolding poll
  poll-keep n ttl now later id entry s sound life alive early =
      let held = kept_until n ttl now later id entry s sound life alive early in
      (rw (held, poll) refl, rw (held, poll) (keep_world now id entry s))

  -- After an invalidation of a cache with a sound local tier, also one that the shared store
  -- failed, a poll that the shared store does not hold and the origin returns is read from the
  -- origin: no older entry of the local tier answers.
  pub poll-invalidate :
      (n now : ℕ) (id : String) (p : Poll) (s : State W)
      → IsSound n s.local
      → (let w = (shared.delete id s.world).1 in (shared.get id w).0 ≡ ok none)
      → (let w = (shared.delete id s.world).1 in (origin.get_poll id (shared.get id w).1).0 ≡ ok p)
      → (poll hash shared origin cfg now id (invalidate hash shared origin cfg id s).1).0 ≡ ok p
  unfolding poll resolve invalidate from_shared ask_origin from_origin save unwrapped unwrap
  poll-invalidate n now id p s sound absent found =
      let c = Sharded.delete hash id s.local in
      let miss = delete-Misses hash n now id s.local sound in
      let again =
        get-none hash now id (Sharded.get hash now id c).1 (get-Misses hash now id c miss) in
      rw
        (get-none hash now id c miss, again, absent, found, poll, resolve, from_shared, from_origin)
        refl
