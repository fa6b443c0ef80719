-- ===== src/Ports.antt =====
-- The ports between services and infrastructure (internal/usecase/ports.go), as records of state
-- passing operations: the world is an argument, and a call returns its result and the next world.
use voting_service.Base.{ℕ, String, List}
use voting_service.Base.Int.{ℤ}
use voting_service.Entity.Errors.{Error, Result, ok, err, wrapped}
use voting_service.Entity.Poll.{Poll, PollOption, PollStatus}

abbrev pub Action : Type 0 → Type 0 → Type 0
Action W A = W → Result A × W

module _ {W : Type 0} where
  abbrev pub pure : {A : Type 0} → A → Action W A
  pure a w = (ok a, w)

  abbrev pub raise : {A : Type 0} → Error → Action W A
  raise e w = (err e, w)

  -- A computed result that touches nothing.
  abbrev pub lift : {A : Type 0} → Result A → Action W A
  lift r w = (r, w)

  infixl 5 ◌>>=◌ ◌>>◌
  abbrev pub ◌>>=◌ : {A B : Type 0} → Action W A → (A → Action W B) → Action W B
  ◌>>=◌ m f w = let (r, w') = m w in elim r [ ok a ↦ f a w' | err e ↦ (err e, w') ]

  abbrev pub ◌>>◌ : {A B : Type 0} → Action W A → Action W B → Action W B
  m >> k = m >>= λ _. k

  -- `if err != nil { return fmt.Errorf("context: %w", err) }` around a call.
  abbrev pub wrapping : {A : Type 0} → String → Action W A → Action W A
  wrapping context m w =
      let (r, w') = m w in elim r [ ok a ↦ (ok a, w') | err e ↦ (err (wrapped context e), w') ]

  -- A call whose result is looked at, also if it is an error.
  abbrev pub try : {A : Type 0} → Action W A → Action W (Result A)
  try m w = let (r, w') = m w in (ok r, w')

pub record GuardRequest : Type 0 where
  pub client_ip : String
  pub poll_id : String

-- `Verdict` is an `int` with three named values.
abbrev pub Verdict : Type 0
Verdict = ℕ

abbrev pub verdict_allow : Verdict
verdict_allow = 0

abbrev pub verdict_rate_limited : Verdict
verdict_rate_limited = 1

abbrev pub verdict_quota_exceeded : Verdict
verdict_quota_exceeded = 2

pub record Ballot : Type 0 where
  pub poll_id : String
  pub voter_hash : String
  pub option_ids : List String

-- `map[string]int64`.
abbrev pub Counts : Type 0
Counts = List (String × ℤ)

-- `VoteStore`.
pub record VoteStore (W : Type 0) : Type 0 where
  pub guard : GuardRequest → Action W Verdict
  pub cast_ballot : Ballot → Action W (Unit {0})
  pub counters : String → List String → Action W Counts
  pub track_poll : String → Action W (Unit {0})
  pub tracked_polls : Action W (List String)
  pub untrack_poll : String → Action W (Unit {0})
  pub ping : Action W (Unit {0})

-- `PollRepository` with its `PollTx`; `Tx` is the handle of an open transaction.
pub record PollRepository (W Tx : Type 0) : Type 0 where
  pub begin_tx : Action W Tx
  pub insert_poll : Tx → Poll → Action W (Unit {0})
  pub insert_poll_options : Tx → Poll → Action W (Unit {0})
  pub insert_zero_results : Tx → Poll → Action W (Unit {0})
  pub commit : Tx → Action W (Unit {0})
  pub rollback : Tx → Action W (Unit {0})
  pub get_poll : String → Action W Poll
  pub count_polls : Action W ℕ
  pub list_poll_page : ℤ → ℤ → Action W (List Poll)
  pub list_options_by_poll_ids : List String → Action W (List (String × List PollOption))
  pub update_poll_status : String → List PollStatus → PollStatus → ℕ → Action W (Unit {0})
  pub get_poll_status : String → Action W PollStatus
  pub get_results : String → Action W Counts
  pub save_results : String → Counts → Action W (Unit {0})

-- `PollLoader`.
pub record PollLoader (W : Type 0) : Type 0 where
  pub poll : String → Action W Poll
  pub invalidate : String → Action W (Unit {0})
