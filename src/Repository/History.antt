-- ===== src/Repository/History.antt =====
-- Sequences of the calls that the services make on the repository (internal/repository/poll.go,
-- internal/service/poll.go), with any round trips lost.
use voting_service.Base.{ℕ, String, Bool, ◌≡◌, Option, [], ◌∷◌}
use voting_service.Base.Int.{ℤ}
use voting_service.Entity.Poll.{draft, active, finished}
use voting_service.Ports.{Counts, VoteStore, PollLoader}
use voting_service.PollService.Build.{PollLimits, CreatePollCommand}
use voting_service.PollService.Polls.{create, transition}
use voting_service.Repository.Poll.{Db, closed}
use voting_service.Repository.Calls.{repository, save_results, get_poll, list_poll_page}

module _ (uuid : String → Option String) (uuid_valid : String → Bool) (store : VoteStore Db)
    (cache : PollLoader Db) (limits : PollLimits) where
  -- A call on the repository, as the services make it.
  pub data Step : Db → Db → Type 0 where
    created :
        (new_id : ℕ → String) (now : ℕ) (cmd : CreatePollCommand) (w : Db)
        → w.session ≡ closed
        → Step w ((create uuid_valid (repository uuid) store cache limits new_id now cmd w).1)
    activated :
        (now : ℕ) (id : String) (w : Db)
        → Step w (
            (transition uuid_valid
              (repository uuid)
              store
              cache
              limits
              now
              id
              (draft ∷ [])
              active
              w).1)
    ended :
        (now : ℕ) (id : String) (w : Db)
        → Step w (
            (transition uuid_valid
              (repository uuid)
              store
              cache
              limits
              now
              id
              (draft ∷ active ∷ [])
              finished
              w).1)
    saved : (id : String) (counts : Counts) (w : Db) → Step w ((save_results uuid id counts w).1)
    got : (id : String) (w : Db) → Step w ((get_poll uuid id w).1)
    paged : (limit offset : ℤ) (w : Db) → Step w ((list_poll_page limit offset w).1)

  pub data Reach : Db → Db → Type 0 where
    here : (w : Db) → Reach w w
    further : (w w' w'' : Db) → Step w w' → Reach w' w'' → Reach w w''
