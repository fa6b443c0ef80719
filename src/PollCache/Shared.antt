-- ===== src/PollCache/Shared.antt =====
-- `RedisStore`, the shared tier of the poll cache (internal/pollcache/redis.go). The client's `GET`,
-- `SET` and `DEL` and the JSON of an entry are parameters; `redis.Nil` is a reply of `none`.
use Prim.Native.String.{◌++◌ as ◌<>◌}
use voting_service.Base.{String, Option, none, some}
use voting_service.Base.Int.{ℤ}
use voting_service.Entity.Errors.{Result, ok}
use voting_service.Ports.{Action, lift, wrapping, ◌>>=◌}
use voting_service.PollCache.Cache.{Entry, SharedStore}

pub record Client (W : Type 0) : Type 0 where
  pub get : String → Action W (Option String)
  pub set : String → String → ℤ → Action W (Unit {0})
  pub del : String → Action W (Unit {0})

abbrev pub key_prefix : String
key_prefix = "pollcache:v1:"

module _ {W : Type 0} (client : Client W) (marshal : Entry → Result String)
    (unmarshal : String → Option Entry) where
  -- What a reply stands for: an entry that cannot be read counts as absent.
  unfoldable pub decoded : Option String → Option Entry
  decoded none = none
  decoded (some raw) = unmarshal raw

  -- `RedisStore.Get`, `RedisStore.Set` and `RedisStore.Delete`.
  unfoldable pub get_entry : String → Action W (Option Entry)
  get_entry poll_id = do
    raw ← wrapping "poll cache get" (client.get (key_prefix <> poll_id))
    lift (ok (decoded raw))

  unfoldable pub set_entry : String → Entry → ℤ → Action W (Unit {0})
  set_entry poll_id entry ttl = do
    raw ← wrapping "poll cache marshal" (lift (marshal entry))
    wrapping "poll cache set" (client.set (key_prefix <> poll_id) raw ttl)

  unfoldable pub delete_entry : String → Action W (Unit {0})
  delete_entry poll_id = wrapping "poll cache delete" (client.del (key_prefix <> poll_id))

  -- `NewRedisStore`: the store as the cache's shared tier.
  abbrev pub redis_shared : SharedStore W
  redis_shared = record { get = get_entry; set = set_entry; delete = delete_entry }
