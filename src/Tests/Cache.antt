-- ===== src/Tests/Cache.antt =====
-- The cache at concrete shards and calls (internal/ttlcache/ttlcache.go).
use voting_service.Base.{
  ℕ, ◌+◌, String, List, none, some, [], ◌∷◌, ◌≡◌, ◌≤◌, arith, if◌then◌else◌, ltb,
}
use voting_service.Base.Int.{pos}
use voting_service.TtlCache.Shard.{Shard, new_shard, get, set, delete}
use voting_service.TtlCache.Ideal.{read, write, without}
use voting_service.TtlCache.Coherent.{IsCoherent, items}
use voting_service.TtlCache.Refines.{get-read, set-write, delete-without, new_shard-IsCoherent}
use voting_service.TtlCache.Sharded
use voting_service.TtlCache.Sharded.{Ttl, new_ttl, shard_count, per_shard}
use voting_service.TtlCache.Bounds.{Call, held, run, run-new_ttl_bounded, new_ttl-IsSound, get-set}

abbrev one_entry : Shard ℕ
one_entry = set 5 "a" 7 (pos 10) (new_shard 2)

one_entry-IsCoherent : IsCoherent one_entry
one_entry-IsCoherent =
    (set-write 5 "a" 7 (pos 10) (new_shard 2) (new_shard-IsCoherent 2 (omega arith))).0

get-read_example :
    IsCoherent (get 9 "a" one_entry).1
    × ((get 9 "a" one_entry).0 ≡ (read 9 "a" (items one_entry.order)).0)
    × (items (get 9 "a" one_entry).1.order ≡ (read 9 "a" (items one_entry.order)).1)
get-read_example = get-read 9 "a" one_entry one_entry-IsCoherent

set-write_example :
    IsCoherent (set 9 "b" 8 (pos 3) one_entry)
    × (items (set 9 "b" 8 (pos 3) one_entry).order
        ≡ write one_entry.capacity 9 "b" 8 (pos 3) (items one_entry.order))
set-write_example = set-write 9 "b" 8 (pos 3) one_entry one_entry-IsCoherent

delete-without_example :
    IsCoherent (delete "a" one_entry)
    × (items (delete "a" one_entry).order ≡ without "a" (items one_entry.order))
delete-without_example = delete-without "a" one_entry one_entry-IsCoherent

abbrev hash_of : String → ℕ
hash_of k = 3

abbrev calls : List (Call ℕ)
calls =
    Call.set 1 "a" 7 (pos 10) ∷ Call.set 2 "b" 8 (pos 10) ∷ Call.get 3 "a" ∷ Call.delete "b" ∷ []

run-new_ttl_bounded_example : held shard_count (run hash_of calls (new_ttl 20)) ≤ 20
run-new_ttl_bounded_example = run-new_ttl_bounded hash_of 20 calls (omega arith)

get-set_example :
    (Sharded.get {V = ℕ} hash_of 9 "a" (Sharded.set hash_of 5 "a" 7 (pos 10) (new_ttl 20))).0
    ≡ (if ltb (5 + 10) 9 then none else some 7)
get-set_example =
    get-set hash_of (per_shard 20) (new_ttl 20) 5 9 "a" 7 10 (new_ttl-IsSound 20) (omega arith)
