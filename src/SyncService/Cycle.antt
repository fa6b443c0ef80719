-- ===== src/SyncService/Cycle.antt =====
-- What a whole cycle does (internal/service/sync.go), over the steps of `Progress`.
use Prim.Native.String.{◌++◌ as ◌<>◌}
use voting_service.Base.{
  ℕ, ◌≤◌, ◌≡◌, refl, sym, ◌∙◌, str_eq_refl, inl, inr, String, true, some, none, List, [], ◌∷◌,
  arith, contains, Bool-cases,
}
use voting_service.Base.Int.{ℤ}
use voting_service.Entity.Errors.{Error, ErrorCode, code_of, not_found, is_not_found, Result-cases}
use voting_service.Entity.Poll.{Poll, option_ids}
use voting_service.Ports.{wrapping, Counts, VoteStore, PollRepository}
use voting_service.VoteStore.Replies.{Holds}
use voting_service.SyncService.Sync.{
  settled, untrack_settled, save_counts, sync_found, sync_missing, sync_loaded, sync_poll, sync_all,
  sync_listed, sync,
}
use voting_service.SyncService.Durable.{Views, Ready, SyncLaws}
use voting_service.SyncService.Progress.{
  Progress, Progress-of_Agree, Progress-trans, Ready-Progress, save-Progress, untrack-Progress,
}
use voting_service.SyncService.Chains.{bind_world, wrapping_world, wrapping_ok}

pub contains-head : (p : String) (ids : List String) → contains p (p ∷ ids) ≡ true
unfolding contains
contains-head p ids = rw (str_eq_refl p) refl

pub contains-tail :
    (p q : String) (ids : List String) → contains q ids ≡ true → contains q (p ∷ ids) ≡ true
unfolding contains
contains-tail p q ids h = ground (arith, h)

pub is_not_found_lem : (e : Error) → is_not_found (code_of e) ≡ true → code_of e ≡ not_found
is_not_found_lem e = by_code (code_of e)
  where
    by_code : (code : ErrorCode) → is_not_found code ≡ true → code ≡ not_found
    by_code not_found h = refl
    by_code _ h = ground arith

module _ {W Tx : Type 0} (repo : PollRepository W Tx) (store : VoteStore W) (v : Views W)
    (Named : String → List String → Type 0) (laws : SyncLaws repo store v Named) (settle_after : ℤ)
    (now : ℕ) where
  abbrev Step : W → W → Type 0
  Step = Progress v settle_after now

  stay : (w : W) → Step w w
  stay w = Progress-of_Agree v settle_after now w w (record {
    votes = λ _ _. refl;
    durable = λ _ _. refl;
    stored = λ _. refl;
    tracked = λ _. refl;
  })

  pub untrack_settled-Progress :
      (p : String) (poll : Poll) (w : W)
      → v.stored w p ≡ some poll
      → ((o : String) → contains o (option_ids poll) ≡ true → v.votes w p o ≤ v.durable w p o)
      → Step w (untrack_settled repo store settle_after now p poll w).1
  unfolding untrack_settled
  untrack_settled-Progress p poll w found saved =
      elim (Bool-cases (settled settle_after now poll)) [
        | inl done ↦
            rw (done, wrapping_world "untrack settled poll" (store.untrack_poll p) w)
              (untrack-Progress v settle_after now repo store Named laws p w
                (inr (poll, found, done, saved)))
        | inr unsettled ↦ rw unsettled (stay w)
      ]

  pub save_counts-Progress :
      (p : String) (poll : Poll) (c : Counts) (w : W)
      → v.stored w p ≡ some poll
      → Named p (option_ids poll)
      → Holds (option_ids poll) (v.votes w p) c
      → Step w (save_counts repo store settle_after now p poll c w).1
  unfolding save_counts
  save_counts-Progress p poll c w found n h =
      bind_world (wrapping ("sync poll " <> p) (repo.save_results p c))
        (λ _. untrack_settled repo store settle_after now p poll) w (Step w)
        (rw (wrapping_world ("sync poll " <> p) (repo.save_results p c) w) saved)
        (λ _ done.
          Progress-trans v settle_after now w
            (wrapping ("sync poll " <> p) (repo.save_results p c) w).1 _
            (rw (wrapping_world ("sync poll " <> p) (repo.save_results p c) w) saved)
            (untrack_settled-Progress p poll
              (wrapping ("sync poll " <> p) (repo.save_results p c) w).1
              (rw (wrapping_world ("sync poll " <> p) (repo.save_results p c) w)
                (saved.stored p ∙ found))
              (λ o known. rw (wrapping_world ("sync poll " <> p) (repo.save_results p c) w) (
                omega (
                  arith,
                  laws.save_ok p o (option_ids poll) (v.votes w p) c w n h
                      (wrapping_ok ("sync poll " <> p) (repo.save_results p c) w tt done) known,
                  saved.votes p o,
                )))))
    where
      saved : Step w (repo.save_results p c w).1
      saved = save-Progress v settle_after now repo store Named laws p (option_ids poll) c w n h

  sync_found-Progress :
      (p : String) (poll : Poll) (w : W)
      → v.stored w p ≡ some poll
      → Ready v Named w p
      → Step w (sync_found repo store settle_after now p poll w).1
  unfolding sync_found
  sync_found-Progress p poll w found ready =
      bind_world (wrapping ("sync poll " <> p) (store.counters p (option_ids poll)))
        (save_counts repo store settle_after now p poll) w (Step w)
        (rw (wrapping_world ("sync poll " <> p) (store.counters p (option_ids poll)) w) seen)
        (λ c done.
          Progress-trans v settle_after now w
            (wrapping ("sync poll " <> p) (store.counters p (option_ids poll)) w).1 _
            (rw (wrapping_world ("sync poll " <> p) (store.counters p (option_ids poll)) w) seen)
            (save_counts-Progress p poll c
              (wrapping ("sync poll " <> p) (store.counters p (option_ids poll)) w).1
              (rw (wrapping_world ("sync poll " <> p) (store.counters p (option_ids poll)) w)
                (seen.stored p ∙ found))
              (ready.named poll found)
              (λ o.
                rw
                  (
                    wrapping_world ("sync poll " <> p) (store.counters p (option_ids poll)) w,
                    seen.votes p o,
                  )
                  (laws.counters_ok p (option_ids poll) w c ready.fits
                    (wrapping_ok _ (store.counters p (option_ids poll)) w c done) o))))
    where
      seen : Step w (store.counters p (option_ids poll) w).1
      seen =
          Progress-of_Agree v settle_after now w (store.counters p (option_ids poll) w).1
            (laws.counters_Agree p (option_ids poll) w)

  pub sync_missing-Progress :
      (p : String) (e : Error) (w : W)
      → (code_of e ≡ not_found → v.stored w p ≡ none)
      → Step w (sync_missing repo store settle_after now p e w).1
  unfolding sync_missing
  sync_missing-Progress p e w missing = elim (Bool-cases (is_not_found (code_of e))) [
    | inl gone ↦
        rw (gone, wrapping_world "untrack missing poll" (store.untrack_poll p) w)
          (untrack-Progress v settle_after now repo store Named laws p w
            (inl (missing (is_not_found_lem e gone))))
    | inr other ↦ rw other (stay w)
  ]

  pub sync_poll-Progress :
      (p : String) (w : W)
      → Ready v Named w p
      → Step w (sync_poll repo store settle_after now p w).1
  unfolding sync_poll sync_loaded
  sync_poll-Progress p w ready =
      Progress-trans v settle_after now w (repo.get_poll p w).1 _ seen
        (elim (Result-cases (repo.get_poll p w).0) [
          | inl (poll, loaded) ↦
              rw (loaded, sync_loaded)
                (sync_found-Progress p poll (repo.get_poll p w).1
                  (seen.stored p ∙ laws.get_poll_ok p w poll loaded)
                  (Ready-Progress v settle_after now Named w (repo.get_poll p w).1 p seen ready))
          | inr (e, failed) ↦
              rw (failed, sync_loaded)
                (sync_missing-Progress p e (repo.get_poll p w).1
                  (λ code. seen.stored p ∙ laws.get_poll_missing p w e failed code))
        ])
    where
      seen : Step w (repo.get_poll p w).1
      seen = Progress-of_Agree v settle_after now w (repo.get_poll p w).1 (laws.get_poll_Agree p w)

  pub sync_all-Progress :
      (ids : List String) (w : W)
      → ((p : String) → contains p ids ≡ true → Ready v Named w p)
      → Step w (sync_all repo store settle_after now ids w).1
  unfolding sync_all
  sync_all-Progress [] w all = stay w
  sync_all-Progress (p ∷ ids) w all =
      let first = sync_poll-Progress p w (all p (contains-head p ids)) in
      Progress-trans v settle_after now w (sync_poll repo store settle_after now p w).1 _ first (
        sync_all-Progress ids (sync_poll repo store settle_after now p w).1 (λ q listed.
          Ready-Progress v settle_after now Named w _ q first
            (all q (contains-tail p q ids listed))))

  -- A cycle, whatever fails in it and wherever, leaves the votes of every poll and the polls
  -- alone, never lowers a durable count nor raises it over the greater of what it was and the
  -- votes, and drops a tracked poll only if there is no such poll or if the poll is settled and
  -- the durable count of each of its options is at least the votes, for a repository and a store
  -- that meet the laws, tracked polls under the identifiers that the repository keeps, and votes
  -- below the end of 64 bits.
  pub sync-Progress :
      (w : W)
      → ((p : String) → v.tracked w p ≡ true → Ready v Named w p)
      → Progress v settle_after now w (sync repo store settle_after now w).1
  unfolding sync sync_listed
  sync-Progress w ready = elim (Result-cases (store.tracked_polls w).0) [
    | inl (ids, listed) ↦
        rw (listed, sync_listed)
          (Progress-trans v settle_after now w (store.tracked_polls w).1 _ seen (
            sync_all-Progress ids (store.tracked_polls w).1 (λ p member.
              Ready-Progress v settle_after now Named w _ p seen
                (ready p (sym (laws.tracked_polls_ok w ids p listed) ∙ member)))))
    | inr (e, failed) ↦ rw (failed, sync_listed) seen
  ]
    where
      seen : Step w (store.tracked_polls w).1
      seen =
          Progress-of_Agree v settle_after now w (store.tracked_polls w).1
            (laws.tracked_polls_Agree w)
