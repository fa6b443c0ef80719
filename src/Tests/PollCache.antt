-- ===== src/Tests/PollCache.antt =====
-- The poll cache over a shared store and an origin that are down (internal/pollcache/cache.go).
use voting_service.Base.{ℕ, ◌≡◌, refl, String, none, arith}
use voting_service.Base.Int.{pos}
use voting_service.Entity.Errors.{ok, err, foreign}
use voting_service.TtlCache.Sharded.{new_ttl, per_shard}
use voting_service.TtlCache.Bounds.{new_ttl-IsSound}
use voting_service.PollCache.Cache.{
  present, SharedStore, Origin, Config, State, unwrap, local_ttl_for, keep, poll, invalidate,
}
use voting_service.PollCache.Fresh.{poll-keep, poll-invalidate}
use voting_service.Tests.Samples.{lunch}

abbrev down : SharedStore ℕ
down = record {
  get = λ id w. (err (foreign "down"), w);
  set = λ id entry ttl w. (err (foreign "down"), w);
  delete = λ id w. (err (foreign "down"), w);
}

abbrev lost : Origin ℕ
lost = record { get_poll = λ id w. (err (foreign "down"), w) }

abbrev cache_config : Config
cache_config = record {
  local_ttl = pos 10;
  shared_ttl = pos 60;
  negative_ttl = pos 5;
  local_capacity = 32;
}

abbrev hash_of : String → ℕ
hash_of k = 3

abbrev started : State ℕ
started = record { local = new_ttl 32; world = 0 }

poll-keep_example :
    ((poll hash_of down lost cache_config 12 "p1"
        (keep hash_of down lost cache_config 5 "p1" (present lunch) started)).0
      ≡ unwrap (present lunch))
    × ((poll hash_of down lost cache_config 12 "p1"
          (keep hash_of down lost cache_config 5 "p1" (present lunch) started)).1.world
        ≡ 0)
unfolding local_ttl_for
poll-keep_example =
    poll-keep hash_of down lost cache_config (per_shard 32) 10 5 12 "p1" (present lunch) started
      (new_ttl-IsSound 32) refl (omega arith) (omega arith)

-- A shared store that holds nothing and cannot be written to.
abbrev bare : SharedStore ℕ
bare = record {
  get = λ id w. (ok none, w);
  set = λ id entry ttl w. (err (foreign "down"), w);
  delete = λ id w. (err (foreign "down"), w);
}

abbrev serves_lunch : Origin ℕ
serves_lunch = record { get_poll = λ id w. (ok lunch, w) }

poll-invalidate_example :
    (poll hash_of bare serves_lunch cache_config 12 "p1"
      (invalidate hash_of bare serves_lunch cache_config "p1" started).1).0
    ≡ ok lunch
poll-invalidate_example =
    poll-invalidate hash_of bare serves_lunch cache_config (per_shard 32) 12 "p1" lunch started
      (new_ttl-IsSound 32) refl refl
