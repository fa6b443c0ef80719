-- ===== src/SyncService/Durable.antt =====
-- What a cycle does to the durable counts and to the set of tracked polls (internal/service/sync.go),
-- for every repository and store that meet the laws below.
use voting_service.Base.{
  ℕ, ◌≤◌, ◌<◌, ◌^◌, max, ◌≡◌, ◌≢◌, String, Bool, true, Option, some, none, List, contains,
}
use voting_service.Entity.Errors.{Error, ok, err, code_of, not_found}
use voting_service.Entity.Poll.{Poll, option_ids}
use voting_service.Ports.{Counts, VoteStore, PollRepository}
use voting_service.VoteStore.Replies.{Holds}

-- What can be seen of a world: the votes that the store holds, the durable counts, the polls of the
-- repository and the tracked polls.
pub record Views (W : Type 0) : Type 0 where
  pub votes : W → String → String → ℕ
  pub durable : W → String → String → ℕ
  pub stored : W → String → Option Poll
  pub tracked : W → String → Bool

module _ {W : Type 0} (v : Views W) where
  -- Two worlds that look the same.
  pub record Agree (w w' : W) : Type 0 where
    pub votes : (p o : String) → v.votes w' p o ≡ v.votes w p o
    pub durable : (p o : String) → v.durable w' p o ≡ v.durable w p o
    pub stored : (p : String) → v.stored w' p ≡ v.stored w p
    pub tracked : (p : String) → v.tracked w' p ≡ v.tracked w p

-- What a cycle relies on at an identifier: its votes are in the range of 64 bits, and if it is a
-- poll's then the poll and its options have it, and theirs, as the repository keeps them.
pub record Ready {W : Type 0} (v : Views W) (Named : String → List String → Type 0) (w : W)
    (p : String) : Type 0 where
  pub fits : (o : String) → v.votes w p o < 2 ^ 63
  pub named : (poll : Poll) → v.stored w p ≡ some poll → Named p (option_ids poll)

-- What the synchroniser expects of its ports. A write that fails may have been made or not. `Named`
-- is a poll with options under the identifiers that the repository keeps.
pub record SyncLaws {W Tx : Type 0} (repo : PollRepository W Tx) (store : VoteStore W) (v : Views W)
    (Named : String → List String → Type 0) : Type 0 where
  pub get_poll_Agree : (p : String) (w : W) → Agree v w (repo.get_poll p w).1
  pub get_poll_ok :
      (p : String) (w : W) (poll : Poll)
      → (repo.get_poll p w).0 ≡ ok poll
      → v.stored w p ≡ some poll
  pub get_poll_missing :
      (p : String) (w : W) (e : Error)
      → (repo.get_poll p w).0 ≡ err e
      → code_of e ≡ not_found
      → v.stored w p ≡ none
  pub counters_Agree :
      (p : String) (ids : List String) (w : W) → Agree v w (store.counters p ids w).1
  pub counters_ok :
      (p : String) (ids : List String) (w : W) (c : Counts)
      → ((o : String) → v.votes w p o < 2 ^ 63)
      → (store.counters p ids w).0 ≡ ok c
      → Holds ids (v.votes w p) c
  pub tracked_polls_Agree : (w : W) → Agree v w (store.tracked_polls w).1
  pub tracked_polls_ok :
      (w : W) (ids : List String) (p : String)
      → (store.tracked_polls w).0 ≡ ok ids
      → contains p ids ≡ v.tracked w p
  -- An upsert keeps the greater count.
  pub save_ok :
      (p o : String) (ids : List String) (g : String → ℕ) (c : Counts) (w : W)
      → Named p ids
      → Holds ids g c
      → (repo.save_results p c w).0 ≡ ok tt
      → contains o ids ≡ true
      → g o ≤ v.durable (repo.save_results p c w).1 p o
  pub save_grows :
      (p : String) (c : Counts) (w : W) (q o : String)
      → v.durable w q o ≤ v.durable (repo.save_results p c w).1 q o
  pub save_bounded :
      (p : String) (ids : List String) (g : String → ℕ) (c : Counts) (w : W) (o : String)
      → Named p ids
      → Holds ids g c
      → v.durable (repo.save_results p c w).1 p o ≤ max (v.durable w p o) (g o)
  pub save_others :
      (p : String) (ids : List String) (c : Counts) (w : W) (q o : String)
      → Named p ids
      → q ≢ p
      → v.durable (repo.save_results p c w).1 q o ≡ v.durable w q o
  pub save_votes :
      (p : String) (c : Counts) (w : W) (q o : String)
      → v.votes (repo.save_results p c w).1 q o ≡ v.votes w q o
  pub save_stored :
      (p : String) (c : Counts) (w : W) (q : String)
      → v.stored (repo.save_results p c w).1 q ≡ v.stored w q
  pub save_tracked :
      (p : String) (c : Counts) (w : W) (q : String)
      → v.tracked (repo.save_results p c w).1 q ≡ v.tracked w q
  pub untrack_votes :
      (p : String) (w : W) (q o : String) → v.votes (store.untrack_poll p w).1 q o ≡ v.votes w q o
  pub untrack_durable :
      (p : String) (w : W) (q o : String)
      → v.durable (store.untrack_poll p w).1 q o ≡ v.durable w q o
  pub untrack_stored :
      (p : String) (w : W) (q : String) → v.stored (store.untrack_poll p w).1 q ≡ v.stored w q
  pub untrack_others :
      (p : String) (w : W) (q : String)
      → q ≢ p
      → v.tracked (store.untrack_poll p w).1 q ≡ v.tracked w q
