-- ===== src/Repository/Kept.antt =====
-- What the calls of the services (internal/service/poll.go) do to the rows of the polls
-- (internal/repository/poll.go), wherever a round trip is lost.
use mathlib.Core.Path.{subst}
use voting_service.Base.{
  ℕ, String, Bool, true, false, ◌≡◌, refl, sym, ap, ◌∙◌, inl, inr, Option, some, List, [], ◌∷◌, not,
  contains, if◌then◌else◌,
}
use voting_service.Entity.Errors.{
  Result, ok, err, is_not_updated, new_error, conflict, wrapped, err_poll_not_found,
}
use voting_service.Entity.Poll.{Poll, PollStatus}
use voting_service.Ports.{Action, Counts, VoteStore, PollLoader, lift, raise, wrapping, ◌>>=◌, try}
use voting_service.PollService.Build.{PollLimits}
use voting_service.PollService.Polls.{transition, transition_after}
use Prim.Native.String.{◌++◌ as ◌<>◌}
use voting_service.SyncService.Chains.{bind_world, wrapping_world}
use voting_service.Repository.Tables.{Tables}
use voting_service.Repository.Queries.{update_rows, upsert, upsert_all}
use voting_service.Repository.Poll.{Db, query, exec}
use voting_service.Repository.Calls.{
  repository, calling, run_upsert, run_update, update_poll_status, get_poll, get_poll_status,
  finished_time, or_not_found, or_not_updated, read_poll, read_status,
}
use voting_service.Repository.Create.{some-bind, some-injective}
use voting_service.Repository.Lifecycle.{Onward, Onward-refl, Forward, update_rows-Onward}
use voting_service.Repository.Statements.{query-tables, exec-tables, none-else, upsert-polls}

-- What a call leaves is what its part leaves, where the rest is reads.
module _ (uuid : String → Option String) where
  run_update-Onward :
      (id : String) (from : List PollStatus) (to : PollStatus) (now : ℕ) (t u : Tables) (hit : Bool)
      → Forward from to
      → run_update uuid id from to now t ≡ some (hit, u)
      → Onward t.polls u.polls
  unfolding run_update
  run_update-Onward id from to now t u hit forward e =
      let (key, known, e1) = some-bind (uuid id) _ (hit, u) e in
      let (rows, changed, same) =
        some-bind (update_rows key from to (finished_time to now) t.polls) _ (hit, u) e1 in
      subst (λ x. Onward t.polls (x.1.polls)) (some-injective same)
        (update_rows-Onward key from to (finished_time to now) t.polls rows forward changed)

  update-Onward :
      (id : String) (from : List PollStatus) (to : PollStatus) (now : ℕ) (w : Db)
      → Forward from to
      → Onward w.tables.polls ((exec (run_update uuid id from to now) w).1.tables.polls)
  update-Onward id from to now w forward = elim (exec-tables (run_update uuid id from to now) w) [
    | inl same ↦ subst (λ t. Onward w.tables.polls t.polls) (sym same) (Onward-refl w.tables.polls)
    | inr (hit, t, ran, left) ↦
        subst (λ t. Onward w.tables.polls t.polls) (sym left)
          (run_update-Onward id from to now w.tables t hit forward ran)
  ]

  upsert_all-polls :
      (id : String) (seen : List String) (counts : Counts) (t u : Tables)
      → upsert_all uuid id seen counts t ≡ some u
      → t.polls ≡ u.polls
  unfolding upsert_all
  upsert_all-polls id seen [] t u e = ap (λ t. t.polls) (some-injective e)
  upsert_all-polls id seen ((option, votes) ∷ counts) t u e =
      let (key, known, e1) = some-bind (uuid option) _ u e in
      let (v, put, e2) =
        some-bind (upsert id key votes t) _ u (none-else (contains key seen) _ u e1) in
      upsert-polls id key votes t v put ∙ upsert_all-polls id (key ∷ seen) counts v u e2

  pub save-tables :
      (id : String) (counts : Counts) (w : Db)
      → (exec (run_upsert uuid id counts) w).1.tables.polls ≡ w.tables.polls
  unfolding run_upsert
  save-tables id counts w = elim (exec-tables (run_upsert uuid id counts) w) [
    | inl same ↦ ap (λ t. t.polls) same
    | inr (_, t, ran, left) ↦
        let (key, known, e1) = some-bind (uuid id) _ (tt, t) ran in
        let (u, put, same) = some-bind (upsert_all uuid key [] counts w.tables) _ (tt, t) e1 in
        ap (λ t. t.polls) (left ∙ ap (λ x. x.1) (sym (some-injective same)))
        ∙ sym (upsert_all-polls key [] counts w.tables u put)
  ]

  lifted-keeps :
      {A B : Type 0} (r : Result A) (f : A → Result B) (w v : Db)
      → (((λ (_ : Db). (r, w)) >>= λ a. lift (f a)) v).1 ≡ w
  lifted-keeps (ok a) f w v = refl
  lifted-keeps (err e) f w v = refl

  pub get_poll-tables : (id : String) (w : Db) → (get_poll uuid id w).1.tables ≡ w.tables
  unfolding get_poll calling
  get_poll-tables id w =
      ap (λ v. v.tables) (lifted-keeps _ or_not_found ((query (read_poll uuid id) w).1) w)
      ∙ query-tables (read_poll uuid id) w

  get_poll_status-tables : (id : String) (w : Db) → (get_poll_status uuid id w).1.tables ≡ w.tables
  unfolding get_poll_status calling
  get_poll_status-tables id w =
      ap (λ v. v.tables) (lifted-keeps _ or_not_found ((query (read_status uuid id) w).1) w)
      ∙ query-tables (read_status uuid id) w

  update_poll_status-world :
      (id : String) (from : List PollStatus) (to : PollStatus) (now : ℕ) (w : Db)
      → (update_poll_status uuid id from to now w).1 ≡ (exec (run_update uuid id from to now) w).1
  unfolding update_poll_status calling
  update_poll_status-world id from to now w =
      lifted-keeps _ or_not_updated ((exec (run_update uuid id from to now) w).1) w

  module _ (uuid_valid : String → Bool) (store : VoteStore Db) (cache : PollLoader Db)
      (limits : PollLimits) where
    abbrev after : String → PollStatus → Result (Unit {0}) → Action Db Poll
    after = transition_after uuid_valid (repository uuid) store cache limits

    -- After the update there are only reads.
    after-tables :
        (id : String) (to : PollStatus) (r : Result (Unit {0})) (w : Db)
        → (after id to r w).1.tables ≡ w.tables
    unfolding transition_after
    after-tables id to (ok _) w =
        ap (λ v. v.tables) (wrapping_world "transition poll" (get_poll uuid id) w)
        ∙ get_poll-tables id w
    after-tables id to (err e) w = by_kind (is_not_updated e)
      where
        refusal : PollStatus → Action Db Poll
        refusal current =
            raise (
              new_error conflict ("cannot change poll status from " <> (current <> (" to " <> to))))

        reading :
            ((wrapping "transition poll" (get_poll_status uuid id) >>= refusal) w).1.tables
            ≡ w.tables
        reading =
            bind_world (wrapping "transition poll" (get_poll_status uuid id)) refusal w
              (λ v. v.tables ≡ w.tables) status (λ current _. status)
          where
            status : (wrapping "transition poll" (get_poll_status uuid id) w).1.tables ≡ w.tables
            status =
                ap (λ v. v.tables) (wrapping_world "transition poll" (get_poll_status uuid id) w)
                ∙ get_poll_status-tables id w

        by_kind :
            (test : Bool)
            → ((if test
                  then (wrapping "transition poll" (get_poll_status uuid id) >>= refusal)
                  else raise (wrapped "transition poll" e))
                w).1.tables
              ≡ w.tables
        by_kind true = reading
        by_kind false = refl

    pub transition-Onward :
        (now : ℕ) (id : String) (from : List PollStatus) (to : PollStatus) (w : Db)
        → Forward from to
        → Onward w.tables.polls (
            (transition uuid_valid
              (repository uuid)
              store
              cache
              limits
              now
              id
              from
              to
              w).1.tables.polls)
    unfolding transition
    transition-Onward now id from to w forward = by_valid (uuid_valid id)
      where
        updating : Action Db Poll
        updating = try (update_poll_status uuid id from to now) >>= after id to

        moved : Onward w.tables.polls ((updating w).1.tables.polls)
        moved =
            let one = update_poll_status-world id from to now w in
            let two =
              after-tables id to ((update_poll_status uuid id from to now w).0)
                ((update_poll_status uuid id from to now w).1) in
            subst (λ t. Onward w.tables.polls t.polls) (sym (two ∙ ap (λ v. v.tables) one))
              (update-Onward id from to now w forward)

        by_valid :
            (valid : Bool)
            → Onward w.tables.polls
                (((if not valid then raise err_poll_not_found else updating) w).1.tables.polls)
        by_valid false = Onward-refl w.tables.polls
        by_valid true = moved
