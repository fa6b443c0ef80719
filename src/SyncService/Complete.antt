-- ===== src/SyncService/Complete.antt =====
-- What a cycle without an error has done, and what its report counts (internal/service/sync.go).
use Prim.Native.String.{◌++◌ as ◌<>◌}
use voting_service.Base.{
  ℕ, ◌≤◌, ◌≡◌, refl, ◌∙◌, sym, ap, inl, inr, String, true, Option, some, none, List, [], ◌∷◌, arith,
  contains, Bool-cases, str_eq, str_eq_iff,
}
use voting_service.Base.Int.{ℤ}
use voting_service.Entity.Errors.{Error, Result, ok, err, code_of, not_found, is_not_found}
use voting_service.Entity.Poll.{Poll, option_ids}
use voting_service.Ports.{Action, wrapping, Counts, VoteStore, PollRepository}
use voting_service.VoteStore.Replies.{Holds}
use voting_service.SyncService.Sync.{
  untrack_settled, save_counts, sync_found, sync_missing, sync_loaded, sync_poll, sync_all,
  sync_listed, sync, count_failure, outcome, Report,
}
use voting_service.SyncService.Durable.{Views, Agree, Ready, SyncLaws}
use voting_service.SyncService.Progress.{Progress, Progress-of_Agree, Ready-Progress}
use voting_service.SyncService.Chains.{err-ne-ok, bind_ok_world, wrapping_world, wrapping_ok}
use voting_service.SyncService.Cycle.{
  is_not_found_lem, sync_missing-Progress, untrack_settled-Progress, sync_all-Progress,
  sync_poll-Progress, contains-head, contains-tail,
}

none-ne-some {ℓ} : {A : Type ℓ} {m : Option A} (a : A) → m ≡ none → m ≡ some a → ⊥
none-ne-some a e e' = cc

count_failure-zero : (r : Result (Unit {0})) (n : ℕ) → count_failure r n ≡ 0 → (r ≡ ok tt) × (n ≡ 0)
unfolding count_failure
count_failure-zero (ok _) n h = (refl, h)
count_failure-zero (err e) n h = absurd (omega (arith, h))

outcome-clean : (report : Report) → (outcome report).1 ≡ ok tt → report.failed ≡ 0
unfolding outcome
outcome-clean report h = ground (arith, h)

module _ {W Tx : Type 0} (repo : PollRepository W Tx) (store : VoteStore W) (v : Views W)
    (Named : String → List String → Type 0) (laws : SyncLaws repo store v Named) (settle_after : ℤ)
    (now : ℕ) where
  -- Every vote for an option of a poll is durable.
  abbrev Durable : W → String → Type 0
  Durable w p =
      (poll : Poll) (o : String)
      → v.stored w p ≡ some poll
      → contains o (option_ids poll) ≡ true
      → v.votes w p o ≤ v.durable w p o

  Durable-Progress :
      (w w' : W) (p : String) → Progress v settle_after now w w' → Durable w p → Durable w' p
  Durable-Progress w w' p g d poll o found known =
      omega (arith, d poll o (sym (g.stored p) ∙ found) known, g.votes p o, g.grows p o)

  -- A poll whose counts are saved without an error.
  save_counts-Durable :
      (p : String) (poll : Poll) (c : Counts) (w : W)
      → v.stored w p ≡ some poll
      → Named p (option_ids poll)
      → Holds (option_ids poll) (v.votes w p) c
      → (save_counts repo store settle_after now p poll c w).0 ≡ ok tt
      → Durable (save_counts repo store settle_after now p poll c w).1 p
  unfolding save_counts
  save_counts-Durable p poll c w found n h done =
      bind_ok_world (wrapping ("sync poll " <> p) (repo.save_results p c))
        (λ _. untrack_settled repo store settle_after now p poll) w (λ w'. Durable w' p) tt done
        (λ _ saved _.
          Durable-Progress (wrapping ("sync poll " <> p) (repo.save_results p c) w).1 _ p
            (untrack_settled-Progress repo store v Named laws settle_after now p poll _ here
              (held saved))
            (λ poll' o found' known'. held saved o (cc (here, found', known'))))
    where
      here : v.stored (wrapping ("sync poll " <> p) (repo.save_results p c) w).1 p ≡ some poll
      here =
          rw (wrapping_world ("sync poll " <> p) (repo.save_results p c) w)
            (laws.save_stored p c w p ∙ found)

      held :
          (wrapping ("sync poll " <> p) (repo.save_results p c) w).0 ≡ ok tt
          → (o : String) → contains o (option_ids poll) ≡ true
          → v.votes (wrapping ("sync poll " <> p) (repo.save_results p c) w).1 p o
            ≤ v.durable (wrapping ("sync poll " <> p) (repo.save_results p c) w).1 p o
      held saved o known = rw (wrapping_world ("sync poll " <> p) (repo.save_results p c) w) (
          omega (
            arith,
            laws.save_ok p o (option_ids poll) (v.votes w p) c w n h
                (wrapping_ok ("sync poll " <> p) (repo.save_results p c) w tt saved) known,
            laws.save_votes p c w p o,
          ))

  sync_found-Durable :
      (p : String) (poll : Poll) (w : W)
      → v.stored w p ≡ some poll
      → Ready v Named w p
      → (sync_found repo store settle_after now p poll w).0 ≡ ok tt
      → Durable (sync_found repo store settle_after now p poll w).1 p
  unfolding sync_found
  sync_found-Durable p poll w found ready done =
      bind_ok_world (wrapping ("sync poll " <> p) read)
        (save_counts repo store settle_after now p poll) w (λ w'. Durable w' p) tt done
        (λ c seen rest.
          save_counts-Durable p poll c (wrapping ("sync poll " <> p) read w).1
            (rw (wrapping_world ("sync poll " <> p) read w) (same.stored p ∙ found))
            (ready.named poll found)
            (λ o.
              rw (wrapping_world ("sync poll " <> p) read w, same.votes p o)
                (laws.counters_ok p (option_ids poll) w c ready.fits (wrapping_ok _ read w c seen)
                  o))
            rest)
    where
      read : Action W Counts
      read = store.counters p (option_ids poll)

      same : Agree v w (store.counters p (option_ids poll) w).1
      same = laws.counters_Agree p (option_ids poll) w

  -- A poll that does not exist has nothing to make durable.
  sync_missing-none :
      (p : String) (e : Error) (w : W)
      → (code_of e ≡ not_found → v.stored w p ≡ none)
      → (sync_missing repo store settle_after now p e w).0 ≡ ok tt
      → v.stored w p ≡ none
  unfolding sync_missing
  sync_missing-none p e w missing done = elim (Bool-cases (is_not_found (code_of e))) [
    | inl gone ↦ missing (is_not_found_lem e gone)
    | inr other ↦ ground (arith, other, done)
  ]

  sync_poll-Durable :
      (p : String) (w : W)
      → Ready v Named w p
      → (sync_poll repo store settle_after now p w).0 ≡ ok tt
      → Durable (sync_poll repo store settle_after now p w).1 p
  unfolding sync_poll sync_loaded
  sync_poll-Durable p w ready =
      by_result (repo.get_poll p w).0
        (λ poll loaded. same.stored p ∙ laws.get_poll_ok p w poll loaded)
        (λ e failed code. same.stored p ∙ laws.get_poll_missing p w e failed code)
    where
      same : Agree v w (repo.get_poll p w).1
      same = laws.get_poll_Agree p w

      by_result :
          (r : Result Poll)
          → ((poll : Poll) → r ≡ ok poll → v.stored (repo.get_poll p w).1 p ≡ some poll)
          → ((e : Error)
              → r ≡ err e
              → code_of e ≡ not_found
              → v.stored (repo.get_poll p w).1 p ≡ none)
          → (sync_loaded repo store settle_after now p r (repo.get_poll p w).1).0 ≡ ok tt
          → Durable (sync_loaded repo store settle_after now p r (repo.get_poll p w).1).1 p
      by_result (ok poll) found _ done =
          sync_found-Durable p poll (repo.get_poll p w).1 (found poll refl)
            (Ready-Progress v settle_after now Named w (repo.get_poll p w).1 p
              (Progress-of_Agree v settle_after now w (repo.get_poll p w).1 same) ready)
            done
      by_result (err e) _ missing done =
          Durable-Progress (repo.get_poll p w).1 _ p
            (sync_missing-Progress repo store v Named laws settle_after now p e
              (repo.get_poll p w).1 (missing e refl))
            (λ poll o found known. absurd (
              none-ne-some poll (sync_missing-none p e (repo.get_poll p w).1 (missing e refl) done)
                found))

  sync_all-Durable :
      (ids : List String) (w : W) (p : String)
      → ((q : String) → contains q ids ≡ true → Ready v Named w q)
      → (sync_all repo store settle_after now ids w).0 ≡ 0
      → contains p ids ≡ true
      → Durable (sync_all repo store settle_after now ids w).1 p
  unfolding sync_all contains
  sync_all-Durable [] w p all clean listed = absurd (ground (arith, listed))
  sync_all-Durable (q ∷ ids) w p all clean listed = elim (Bool-cases (str_eq p q)) [
    | inl same ↦
        Durable-Progress (sync_poll repo store settle_after now q w).1 _ p
          (sync_all-Progress repo store v Named laws settle_after now ids _ rest)
          (rw ((str_eq_iff p q).0 same)
            (sync_poll-Durable q w (all q (contains-head q ids)) each.0))
    | inr other ↦ sync_all-Durable ids _ p rest each.1 (ground (arith, listed, other))
  ]
    where
      rest :
          (o : String)
          → contains o ids ≡ true
          → Ready v Named (sync_poll repo store settle_after now q w).1 o
      rest o listed =
          Ready-Progress v settle_after now Named w _ o
            (sync_poll-Progress repo store v Named laws settle_after now q w
              (all q (contains-head q ids)))
            (all o (contains-tail q o ids listed))

      each :
          ((sync_poll repo store settle_after now q w).0 ≡ ok tt)
          × ((sync_all repo store settle_after now ids
                (sync_poll repo store settle_after now q w).1).0
              ≡ 0)
      each = count_failure-zero (sync_poll repo store settle_after now q w).0 _ clean

  sync_listed-clean :
      (r : Result (List String)) (w : W)
      → (sync_listed repo store settle_after now r w).0.1 ≡ ok tt
      → (ids : List String) × (r ≡ ok ids)
        × ((sync_all repo store settle_after now ids w).0 ≡ 0)
        × ((sync_listed repo store settle_after now r w).1
            ≡ (sync_all repo store settle_after now ids w).1)
  unfolding sync_listed
  sync_listed-clean (ok ids) w h = (ids, refl, outcome-clean _ h, refl)
  sync_listed-clean (err e) w h = absurd (err-ne-ok h)

  -- After a cycle that returns no error, every vote for an option of a stored poll that was
  -- tracked when the cycle began is durable, for a repository and a store that meet the laws, tracked
  -- polls under the identifiers that the repository keeps, and votes below the end of 64 bits.
  pub sync-durable :
      (w : W) (p o : String) (poll : Poll)
      → ((q : String) → v.tracked w q ≡ true → Ready v Named w q)
      → (sync repo store settle_after now w).0.1 ≡ ok tt
      → v.tracked w p ≡ true
      → v.stored w p ≡ some poll
      → contains o (option_ids poll) ≡ true
      → v.votes w p o ≤ v.durable (sync repo store settle_after now w).1 p o
  unfolding sync
  sync-durable w p o poll ready done tracked found known = omega (
    arith,
    sync_all-Durable clean.0 w1 p all clean.2 (laws.tracked_polls_ok w clean.0 p clean.1 ∙ tracked)
        poll o (moved.stored p ∙ same.stored p ∙ found) known,
    same.votes p o,
    moved.votes p o,
    ap (λ w'. v.durable w' p o) clean.3,
  )
    where
      w1 : W
      w1 = (store.tracked_polls w).1

      same : Agree v w w1
      same = laws.tracked_polls_Agree w

      clean :
          (ids : List String) × ((store.tracked_polls w).0 ≡ ok ids)
          × ((sync_all repo store settle_after now ids w1).0 ≡ 0)
          × ((sync_listed repo store settle_after now (store.tracked_polls w).0 w1).1
              ≡ (sync_all repo store settle_after now ids w1).1)
      clean = sync_listed-clean (store.tracked_polls w).0 w1 done

      all : (q : String) → contains q clean.0 ≡ true → Ready v Named w1 q
      all q listed =
          Ready-Progress v settle_after now Named w w1 q
            (Progress-of_Agree v settle_after now w w1 same)
            (ready q (sym (laws.tracked_polls_ok w clean.0 q clean.1) ∙ listed))

      moved : Progress v settle_after now w1 (sync_all repo store settle_after now clean.0 w1).1
      moved = sync_all-Progress repo store v Named laws settle_after now clean.0 w1 all
