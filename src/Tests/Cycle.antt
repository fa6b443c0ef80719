-- ===== src/Tests/Cycle.antt =====
-- A cycle of the synchroniser over the server of the examples and concrete tables
-- (internal/service/sync.go).
use voting_service.Base.{
  ◌≤◌, ◌≡◌, refl, String, true, Option, none, some, [], ◌∷◌, arith, contains, str_eq, lookup,
  insert, decimal, parse_int, Bool-cases, inl, inr,
}
use voting_service.Base.Int.{pos, add_int64, ◌+ℤ◌}
use voting_service.Redis.{call}
use voting_service.Repository.Poll.{closed, failing, query, answer, exec}
use voting_service.Repository.Tables.{Tables, order_by, place, has_poll, has_option, has_result}
use voting_service.Repository.Calls.{
  repository, read_poll, get_poll, calling, or_not_found, save_results, run_upsert,
}
use voting_service.Repository.Bounded.{votes_in}
use voting_service.VoteStore.Store.{
  store, tracked_polls, unavailable_as, counters, add_replies, add_reply, read_shards, sum_replies,
  zero_counts, untrack_poll,
}
use voting_service.VoteStore.Keys.{counts_key, tag_for_shard}
use voting_service.SyncService.Sync.{
  sync, sync_listed, sync_all, sync_poll, sync_loaded, sync_found, save_counts, untrack_settled,
  settled, sub_time, count_failure, outcome,
}
use voting_service.Entity.Poll.{Poll}
use voting_service.Entity.Errors.{ok, code_of}
use voting_service.Repository.Queries.{
  joined, scan_poll, beside, options_of, add_row, header, option_of, upsert_all, upsert,
  raise_votes,
}
use voting_service.SyncService.Durable.{Ready, Views}
use voting_service.SyncService.Progress.{Progress}
use voting_service.SyncService.Cycle.{sync-Progress}
use voting_service.SyncService.Complete.{sync-durable}
use voting_service.SyncService.Stores.{
  Canonical, World, views, store_beside, repository_beside, stores-SyncLaws,
}
use voting_service.Tests.Server.{Keys, server, server-RedisLaws}
use voting_service.Tests.Hash.{Sound}
use voting_service.Tests.Samples.{two_shards, checksum_of}

abbrev any_text : String → Option String
any_text id = some id

four-Sound : Sound (("a", 4) ∷ [])
unfolding contains
four-Sound = (omega arith, refl, tt)

-- Four votes for one option in each shard.
abbrev voted : Keys
voted = record {
  numbers = λ _. 0;
  present = [];
  hashes = λ _. (("a", 4) ∷ [], four-Sound);
  members = λ _. "p1" ∷ [];
}

abbrev one_poll : Tables
one_poll = record {
  polls =
      record {
        id = "p1";
        question = "Lunch?";
        poll_type = "single";
        max_choices = pos 1;
        status = "finished";
        created_at = 1000;
        starts_at = none;
        ends_at = none;
        finished_at = some 2000;
      }
      ∷ [];
  options =
      record { id = "a"; poll_id = "p1"; text = "Soup"; position = 0 }
      ∷ record { id = "b"; poll_id = "p1"; text = "Salad"; position = 1 }
      ∷ [];
  results = record { poll_id = "p1"; option_id = "a"; votes = pos 1 } ∷ [];
}

abbrev before : World server server-RedisLaws checksum_of two_shards any_text
before =
    (record { db = voted; links = [] }, record { tables = one_poll; session = closed; links = [] })

abbrev seen : Views (World server server-RedisLaws checksum_of two_shards any_text)
seen = views server server-RedisLaws checksum_of two_shards any_text

before-Ready :
    (p : String) → seen.tracked before p ≡ true → Ready seen (Canonical any_text) before p
before-Ready p tracked = record {
  fits = λ o. elim (Bool-cases (str_eq "a" o)) [
    | inl e ↦ rw e (omega arith)
    | inr e ↦ rw e (omega arith)
  ];
  named = λ poll found. (refl, λ o asked. refl);
}

-- The poll that is read.
abbrev lunch : Poll
lunch = record {
  id = "p1";
  question = "Lunch?";
  poll_type = "single";
  max_choices = pos 1;
  status = "finished";
  options =
      record { id = "a"; text = "Soup"; position = 0 }
      ∷ record { id = "b"; text = "Salad"; position = 1 }
      ∷ [];
  created_at = 1000;
  starts_at = none;
  ends_at = none;
  finished_at = some 2000;
}

lunch-stored : seen.stored before "p1" ≡ some lunch
unfolding read_poll joined scan_poll str_eq beside order_by options_of place add_row header
    option_of
lunch-stored = refl

clean :
    (sync
      (repository_beside (repository any_text))
      (store_beside (store server checksum_of two_shards))
      (pos 5)
      100
      before).0.1
    ≡ ok tt
unfolding sync sync_listed sync_all sync_poll sync_loaded sync_found save_counts untrack_settled
    settled count_failure outcome str_eq contains lookup tracked_polls unavailable_as call get_poll
    calling failing query answer read_poll or_not_found scan_poll joined beside order_by options_of
    place counters decimal parse_int add_int64 ◌+ℤ◌ insert code_of add_row header option_of sub_time
    counts_key tag_for_shard add_replies add_reply read_shards sum_replies zero_counts save_results
    run_upsert exec upsert_all upsert raise_votes has_poll has_option has_result untrack_poll
clean = refl

sync-Progress_example :
    Progress seen
      (pos 5)
      100
      before
      (sync
        (repository_beside (repository any_text))
        (store_beside (store server checksum_of two_shards))
        (pos 5)
        100
        before).1
sync-Progress_example =
    sync-Progress (repository_beside (repository any_text))
      (store_beside (store server checksum_of two_shards)) seen (Canonical any_text)
      (stores-SyncLaws server server-RedisLaws checksum_of two_shards any_text) (pos 5) 100 before
      before-Ready

-- The eight votes are durable.
sync-durable_example :
    8
    ≤ votes_in "p1" "a"
        (sync
          (repository_beside (repository any_text))
          (store_beside (store server checksum_of two_shards))
          (pos 5)
          100
          before).1.1.tables.results
unfolding sync str_eq contains
sync-durable_example =
    sync-durable (repository_beside (repository any_text))
      (store_beside (store server checksum_of two_shards)) seen (Canonical any_text)
      (stores-SyncLaws server server-RedisLaws checksum_of two_shards any_text) (pos 5) 100 before
      "p1" "a" lunch before-Ready clean refl lunch-stored refl
