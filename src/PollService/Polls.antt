-- ===== src/PollService/Polls.antt =====
-- The methods of `PollService` (internal/service/poll.go). `uuid.Validate` is a parameter; the time
-- that `s.now()` reads in a call is an argument, and log lines are left out.
use Prim.Native.String.{◌++◌ as ◌<>◌}
use voting_service.Base.{
  ℕ, String, Bool, not, none, some, List, [], ◌∷◌, map, if◌then◌else◌, lookup, insert,
}
use voting_service.Base.Int.{ℤ, pos, ltb_ℤ, leb_ℤ, add_int64}
use voting_service.Entity.Errors.{
  Result, ok, err, new_error, wrap_error, wrapped, err_poll_not_found, conflict, unavailable,
  is_not_updated,
}
use voting_service.Entity.Poll.{Poll, PollOption, PollStatus, draft, active, finished, option_ids}
use voting_service.Ports.{
  Action, pure, raise, lift, ◌>>=◌, ◌>>◌, wrapping, try, Counts, VoteStore, PollRepository,
  PollLoader,
}
use voting_service.PollService.Build.{PollLimits, CreatePollCommand, build_poll}

-- `Results`.
pub record Results : Type 0 where
  pub poll : Poll
  pub counts : Counts
  pub total : ℤ

-- `PollPage`.
pub record PollPage : Type 0 where
  pub items : List Poll
  pub total : ℕ
  pub limit : ℤ
  pub offset : ℤ

-- The page size of `List`, for the one that was asked for, and the offset.
unfoldable pub page_limit : PollLimits → ℤ → ℤ
page_limit limits asked =
    let limit = if leb_ℤ asked (pos 0) then limits.default_page_size else asked in
    if ltb_ℤ limits.max_page_size limit then limits.max_page_size else limit

unfoldable pub page_offset : ℤ → ℤ
page_offset asked = if ltb_ℤ asked (pos 0) then pos 0 else asked

-- `optionsByPoll[polls[i].ID]`; a missing key gives no options.
unfoldable pub with_options : List (String × List PollOption) → Poll → Poll
with_options options_by_poll poll = record {
  id = poll.id;
  question = poll.question;
  poll_type = poll.poll_type;
  max_choices = poll.max_choices;
  status = poll.status;
  options = elim (lookup poll.id options_by_poll) [ none ↦ [] | some options ↦ options ];
  created_at = poll.created_at;
  starts_at = poll.starts_at;
  ends_at = poll.ends_at;
  finished_at = poll.finished_at;
}

-- The number at a key of a map; zero for a missing key.
unfoldable pub count_at : String → Counts → ℤ
count_at id counts = elim (lookup id counts) [ none ↦ pos 0 | some n ↦ n ]

-- A read that failed is a nil map.
unfoldable pub counts_of : Result Counts → Counts
counts_of (ok counts) = counts
counts_of (err e) = []

-- The greater of the two counts of an option.
unfoldable pub merged : Counts → Counts → String → ℤ
merged durable live id =
    if ltb_ℤ (count_at id durable) (count_at id live) then count_at id live else count_at id durable

-- The loop over the options.
unfoldable pub merge_counts : Counts → Counts → List String → Counts → ℤ → Counts × ℤ
merge_counts durable live [] counts total = (counts, total)
merge_counts durable live (id ∷ ids) counts total =
    let count = merged durable live id in
    merge_counts durable live ids (insert id count counts) (add_int64 total count)

-- What `Results` makes of its two reads.
unfoldable pub results_of : Poll → Result Counts → Result Counts → Result Results
results_of poll (err d) (err e) =
    err (wrapped "results" (wrap_error unavailable e "results are temporarily unavailable"))
results_of poll durable live =
    let (counts, total) =
      merge_counts (counts_of durable) (counts_of live) (option_ids poll) [] (pos 0) in
    ok (record { poll = poll; counts = counts; total = total })

module _ {W Tx : Type 0} (uuid_valid : String → Bool) (repo : PollRepository W Tx)
    (store : VoteStore W) (cache : PollLoader W) (limits : PollLimits) where
  -- The statements of `Create` inside the transaction.
  unfoldable pub insert_all : Tx → Poll → Action W Poll
  insert_all tx poll = do
    wrapping "create poll" (repo.insert_poll tx poll)
    wrapping "create poll" (repo.insert_poll_options tx poll)
    wrapping "create poll" (repo.insert_zero_results tx poll)
    wrapping "create poll" (repo.commit tx)
    pure poll

  -- `defer func() { _ = tx.Rollback(ctx) }()`.
  unfoldable pub then_rollback : Tx → Action W Poll → Action W Poll
  then_rollback tx body w = let (r, w') = body w in let (_, w'') = repo.rollback tx w' in (r, w'')

  -- `PollService.Create`.
  unfoldable pub create : (ℕ → String) → ℕ → CreatePollCommand → Action W Poll
  create new_id now cmd = do
    poll ← wrapping "build poll" (lift (build_poll limits new_id now cmd))
    tx ← wrapping "create poll" repo.begin_tx
    then_rollback tx (insert_all tx poll)

  -- `PollService.Get`.
  unfoldable pub get : String → Action W Poll
  get poll_id =
      if not (uuid_valid poll_id)
      then raise err_poll_not_found
      else wrapping "get poll" (cache.poll poll_id)

  -- `PollService.List`.
  unfoldable pub list : ℤ → ℤ → Action W PollPage
  list asked_limit asked_offset = do
    total ← wrapping "list polls" repo.count_polls
    polls ←
        wrapping "list polls"
          (repo.list_poll_page (page_limit limits asked_limit) (page_offset asked_offset))
    options ← wrapping "list polls" (repo.list_options_by_poll_ids (map (λ p. p.id) polls))
    pure (record {
      items = map (with_options options) polls;
      total = total;
      limit = page_limit limits asked_limit;
      offset = page_offset asked_offset;
    })

  -- `PollService.invalidate`: a failure is only logged.
  unfoldable pub invalidate : String → Action W (Unit {0})
  invalidate poll_id = try (cache.invalidate poll_id) >>= λ _. pure tt

  -- The branches of `transition` on the result of the update.
  unfoldable pub transition_after : String → PollStatus → Result (Unit {0}) → Action W Poll
  transition_after poll_id to (ok _) = wrapping "transition poll" (repo.get_poll poll_id)
  transition_after poll_id to (err e) =
      if is_not_updated e
      then (do
        current ← wrapping "transition poll" (repo.get_poll_status poll_id)
        raise
            (new_error conflict ("cannot change poll status from " <> (current <> (" to " <> to)))))
      else raise (wrapped "transition poll" e)

  -- `PollService.transition`.
  unfoldable pub transition : ℕ → String → List PollStatus → PollStatus → Action W Poll
  transition now poll_id from to =
      if not (uuid_valid poll_id)
      then raise err_poll_not_found
      else (try (repo.update_poll_status poll_id from to now) >>= transition_after poll_id to)

  -- `PollService.Activate`.
  unfoldable pub activate : ℕ → String → Action W Poll
  activate now poll_id = do
    poll ← wrapping "activate poll" (transition now poll_id (draft ∷ []) active)
    wrapping "activate poll" (store.track_poll poll.id)
    wrapping "activate poll" (invalidate poll.id)
    pure poll

  -- `PollService.Finish`.
  unfoldable pub finish : ℕ → String → Action W Poll
  finish now poll_id = do
    poll ← wrapping "finish poll" (transition now poll_id (draft ∷ active ∷ []) finished)
    wrapping "finish poll" (invalidate poll.id)
    pure poll

  -- `PollService.Results`.
  unfoldable pub results : String → Action W Results
  results poll_id = do
    poll ← wrapping "results" (get poll_id)
    durable ← try (repo.get_results poll_id)
    live ← try (store.counters poll_id (option_ids poll))
    lift (results_of poll durable live)
