-- ===== src/SyncService/Sync.antt =====
-- `SyncService` (internal/service/sync.go) and `Job` (internal/syncjob/job.go). The time that
-- `s.now()` reads in a call is an argument; log lines are left out.
use Prim.Native.String.{◌++◌ as ◌<>◌}
use voting_service.Base.{
  ℕ, suc, ◌-◌, ◌^◌, String, Bool, false, not, none, some, List, [], ◌∷◌, length, ltb, leb,
  if◌then◌else◌, str_eq, decimal,
}
use voting_service.Base.Int.{ℤ, pos, negsuc, sub_ℕ, leb_ℤ}
use voting_service.Entity.Errors.{Error, Result, ok, err, wrapped, foreign, code_of, is_not_found}
use voting_service.Entity.Poll.{Poll, option_ids, finished}
use voting_service.Ports.{
  Action, pure, raise, ◌>>=◌, ◌>>◌, wrapping, try, Counts, VoteStore, PollRepository,
}

-- `time.Time.Sub`: the difference, cut off at the ends of 64 bits.
unfoldable pub sub_time : ℕ → ℕ → ℤ
sub_time a b =
    if leb b a
    then (if ltb (a - b) (2 ^ 63) then pos (a - b) else pos (2 ^ 63 - 1))
    else (if leb (b - a) (2 ^ 63) then sub_ℕ a b else negsuc (2 ^ 63 - 1))

-- `Report`.
pub record Report : Type 0 where
  pub tracked : ℕ
  pub failed : ℕ

-- `settled`.
unfoldable pub settled : ℤ → ℕ → Poll → Bool
settled settle_after now poll =
    if not (str_eq poll.status finished)
    then false
    else elim poll.finished_at [ none ↦ false | some at ↦ leb_ℤ settle_after (sub_time now at) ]

-- `report.Failed++` for a poll that failed.
unfoldable pub count_failure : Result (Unit {0}) → ℕ → ℕ
count_failure (ok _) failed = failed
count_failure (err e) failed = suc failed

-- What `Sync` returns: the report, and the error beside it.
unfoldable pub outcome : Report → Report × Result (Unit {0})
outcome report = (
  report,
  if ltb 0 report.failed
      then err (
          foreign (
            "failed to synchronise "
            <> (decimal report.failed <> (" of " <> (decimal report.tracked <> " polls")))))
      else ok tt,
)

module _ {W Tx : Type 0} (repo : PollRepository W Tx) (store : VoteStore W) (settle_after : ℤ)
    (now : ℕ) where
  -- A poll whose counts are saved is no longer tracked if it is settled.
  unfoldable pub untrack_settled : String → Poll → Action W (Unit {0})
  untrack_settled poll_id poll =
      if settled settle_after now poll
      then wrapping "untrack settled poll" (store.untrack_poll poll_id)
      else pure tt

  -- The counters of a poll are saved.
  unfoldable pub save_counts : String → Poll → Counts → Action W (Unit {0})
  save_counts poll_id poll counts =
      wrapping ("sync poll " <> poll_id) (repo.save_results poll_id counts)
      >> untrack_settled poll_id poll

  -- A poll that is found.
  unfoldable pub sync_found : String → Poll → Action W (Unit {0})
  sync_found poll_id poll =
      wrapping ("sync poll " <> poll_id) (store.counters poll_id (option_ids poll))
      >>= save_counts poll_id poll

  -- A poll that is not loaded: one that does not exist is no longer tracked.
  unfoldable pub sync_missing : String → Error → Action W (Unit {0})
  sync_missing poll_id e =
      if is_not_found (code_of e)
      then wrapping "untrack missing poll" (store.untrack_poll poll_id)
      else raise (wrapped ("sync poll " <> poll_id) e)

  -- The branches of `syncPoll` on the poll that is loaded.
  unfoldable pub sync_loaded : String → Result Poll → Action W (Unit {0})
  sync_loaded poll_id (ok poll) = sync_found poll_id poll
  sync_loaded poll_id (err e) = sync_missing poll_id e

  -- `syncPoll`.
  unfoldable pub sync_poll : String → Action W (Unit {0})
  sync_poll poll_id = try (repo.get_poll poll_id) >>= sync_loaded poll_id

  -- The loop of `Sync`: the number of polls that failed, and the world.
  unfoldable pub sync_all : List String → W → ℕ × W
  sync_all [] w = (0, w)
  sync_all (poll_id ∷ ids) w =
      let (done, w') = sync_poll poll_id w in
      let (failed, w'') = sync_all ids w' in (count_failure done failed, w'')

  -- The branches of `Sync` on the tracked polls that are read.
  unfoldable pub sync_listed : Result (List String) → W → (Report × Result (Unit {0})) × W
  sync_listed (err e) w = ((record { tracked = 0; failed = 0 }, err (wrapped "sync" e)), w)
  sync_listed (ok ids) w =
      let (failed, w') = sync_all ids w in
      (outcome (record { tracked = length ids; failed = failed }), w')

  -- `SyncService.Sync`.
  unfoldable pub sync : W → (Report × Result (Unit {0})) × W
  sync w = let (listed, w') = store.tracked_polls w in sync_listed listed w'

  -- `Job.RunOnce`, for a cycle that ends within the timeout.
  unfoldable pub run_once : Action W (Unit {0})
  run_once w =
      let ((report, done), w') = sync w in
      ((elim done [ ok _ ↦ ok tt | err e ↦ err (wrapped "sync" e) ]), w')
