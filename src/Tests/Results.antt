-- ===== src/Tests/Results.antt =====
-- Results and pages at concrete inputs (internal/service/poll.go).
use voting_service.Base.{max, ◌≡◌, [], ◌∷◌}
use voting_service.Entity.Errors.{ok}
use voting_service.VoteStore.Replies.{Holds}
use voting_service.PollService.Polls.{Results, results_of}
use voting_service.PollService.Merge.{results_of-max}
use voting_service.Tests.Samples.{lunch}
use voting_service.Tests.Tables.{listing, listing-Holds}

results_of-max_example :
    (r : Results) × (results_of lunch
        (ok (listing ("a" ∷ "b" ∷ "c" ∷ []) (λ o. 3)))
        (ok (listing ("a" ∷ "b" ∷ "c" ∷ []) (λ o. 5)))
      ≡ ok r)
    × Holds ("a" ∷ "b" ∷ "c" ∷ []) (λ o. max 3 5) r.counts
results_of-max_example =
    results_of-max lunch (λ o. 3) (λ o. 5) (listing ("a" ∷ "b" ∷ "c" ∷ []) (λ o. 3))
      (listing ("a" ∷ "b" ∷ "c" ∷ []) (λ o. 5)) (listing-Holds ("a" ∷ "b" ∷ "c" ∷ []) (λ o. 3))
      (listing-Holds ("a" ∷ "b" ∷ "c" ∷ []) (λ o. 5))
