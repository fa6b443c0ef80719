-- ===== src/VoteService/Accepted.antt =====
-- Which ballots `Cast` accepts (internal/service/vote.go).
use voting_service.Base.{
  ℕ, String, ◌≡◌, ◌≢◌, ◌↔◌, ap, inl, inr, ◌⊎◌, Bool, true, List, arith, str_eq, str_eq_iff,
  str_eq_ne, trim_space, Bool-cases,
}
use voting_service.Entity.Errors.{
  Error, Result, ok, err, wrapped, code_of, conflict, invalid_request, Result-cases,
}
use voting_service.Entity.Poll.{Poll, check_open_at, validate_ballot}
use voting_service.Entity.Ballot.{IsBallot, validate_ballot-IsBallot, validate_ballot_refusal}
use voting_service.Entity.Window.{IsOpenAt, check_open_at-IsOpenAt, check_open_at_refusal}
use voting_service.Ports.{
  Action, GuardRequest, Verdict, verdict_rate_limited, verdict_quota_exceeded, Ballot, VoteStore,
  PollLoader,
}
use voting_service.VoteService.Cast.{VoteCommand, voter_hash, admit, cast_in, cast}

module _ {W : Type 0} (uuid_valid : String → Bool) (sha256 : List ℕ → List ℕ) (polls : PollLoader W)
    (store : VoteStore W) where
  abbrev pub request_of : VoteCommand → GuardRequest
  request_of cmd = record { client_ip = cmd.client_ip; poll_id = cmd.poll_id }

  abbrev pub ballot_of : VoteCommand → Ballot
  ballot_of cmd = record {
    poll_id = cmd.poll_id;
    voter_hash = voter_hash sha256 cmd.poll_id cmd.voter_token;
    option_ids = cmd.option_ids;
  }

  -- The worlds after the load, after the guard and after the ballot.
  abbrev pub loaded : VoteCommand → W → W
  loaded cmd w = (polls.poll cmd.poll_id w).1

  abbrev pub guarded : VoteCommand → W → W
  guarded cmd w = (store.guard (request_of cmd) (loaded cmd w)).1

  abbrev pub recorded : VoteCommand → W → W
  recorded cmd w = (store.cast_ballot (ballot_of cmd) (guarded cmd w)).1

  -- Everything that a recorded ballot has passed.
  pub record IsAccepted (now : ℕ) (cmd : VoteCommand) (w : W) : Type 0 where
    pub valid_id : uuid_valid cmd.poll_id ≡ true
    pub has_token : trim_space cmd.voter_token ≢ ""
    pub poll : Poll
    pub found : (polls.poll cmd.poll_id w).0 ≡ ok poll
    pub in_window : IsOpenAt poll now
    pub proper : IsBallot poll cmd.option_ids
    pub verdict : Verdict
    pub judged : (store.guard (request_of cmd) (loaded cmd w)).0 ≡ ok verdict
    pub within_rate : verdict ≢ verdict_rate_limited
    pub within_quota : verdict ≢ verdict_quota_exceeded
    pub fresh : (store.cast_ballot (ballot_of cmd) (guarded cmd w)).0 ≡ ok tt

  abbrev run : ℕ → VoteCommand → Action W (Unit {0})
  run = cast uuid_valid sha256 polls store

  accepted_of_ok :
      (now : ℕ) (cmd : VoteCommand) (w : W)
      → (run now cmd w).0 ≡ ok tt
      → IsAccepted now cmd w × ((run now cmd w).1 ≡ recorded cmd w)
  unfolding cast cast_in admit
  accepted_of_ok now cmd w h = elim (Bool-cases (uuid_valid cmd.poll_id)) [
    | inr bad ↦ ground arith
    | inl good ↦ elim (Bool-cases (str_eq (trim_space cmd.voter_token) "")) [
      | inl none_given ↦ ground arith
      | inr given ↦ elim (Result-cases (polls.poll cmd.poll_id w).0) [
        | inr (e, lost) ↦ ground arith
        | inl (p, found) ↦ elim (Result-cases (store.guard (request_of cmd) (loaded cmd w)).0) [
          | inr (e, down) ↦ ground arith
          | inl (v, judged) ↦ (
            record {
              valid_id = good;
              has_token = λ e. cc (given, (str_eq_iff (trim_space cmd.voter_token) "").1 e);
              poll = p;
              found = found;
              in_window = (check_open_at-IsOpenAt p now).0 (ground arith);
              proper = (validate_ballot-IsBallot p cmd.option_ids).0 (ground arith);
              verdict = v;
              judged = judged;
              within_rate = ground arith;
              within_quota = ground arith;
              fresh = ground arith;
            },
            ground arith,
          )
        ]
      ]
    ]
  ]

  ok_of_accepted :
      (now : ℕ) (cmd : VoteCommand) (w : W)
      → IsAccepted now cmd w
      → run now cmd w ≡ (ok tt, recorded cmd w)
  unfolding cast cast_in admit
  ok_of_accepted now cmd w a = ground (
    arith,
    a.valid_id,
    str_eq_ne _ _ a.has_token,
    a.found,
    (check_open_at-IsOpenAt a.poll now).1 a.in_window,
    (validate_ballot-IsBallot a.poll cmd.option_ids).1 a.proper,
    a.judged,
    a.within_rate,
    a.within_quota,
    a.fresh,
  )

  -- A vote is accepted exactly when the poll identifier is well formed, the token is not blank, the
  -- poll is found and open at that time, the ballot is one for that poll, the guard answers neither
  -- rate limited nor over quota, and the store records the ballot; the world is then the one after
  -- the store's call.
  pub cast-IsAccepted :
      (now : ℕ) (cmd : VoteCommand) (w : W)
      → (cast uuid_valid sha256 polls store now cmd w ≡ (ok tt, recorded cmd w))
        ↔ IsAccepted now cmd w
  cast-IsAccepted now cmd w = (
    λ h. (accepted_of_ok now cmd w (ap (λ (m : Result (Unit {0}) × W). m.0) h)).0,
    ok_of_accepted now cmd w,
  )

  -- A well-formed vote for a poll that is not open, or with no ballot for it, is refused with a
  -- conflict or an invalid request, and the vote store is never asked: the world is the one after
  -- the poll was loaded.
  pub cast_refused :
      (now : ℕ) (cmd : VoteCommand) (w : W) (p : Poll)
      → uuid_valid cmd.poll_id ≡ true
      → trim_space cmd.voter_token ≢ ""
      → (polls.poll cmd.poll_id w).0 ≡ ok p
      → ¬ (IsOpenAt p now × IsBallot p cmd.option_ids)
      → (e : Error) × (cast uuid_valid sha256 polls store now cmd w ≡ (err e, loaded cmd w))
        × ((code_of e ≡ conflict) ⊎ (code_of e ≡ invalid_request))
  unfolding cast cast_in admit code_of
  cast_refused now cmd w p good given found bad =
      let token = str_eq_ne _ _ given in
      elim (Result-cases (check_open_at p now)) [
        | inr (e, closed) ↦
            (wrapped "cast vote" e, ground arith, inl (check_open_at_refusal p now e closed))
        | inl (_, opened) ↦ elim (Result-cases (validate_ballot p cmd.option_ids)) [
          | inr (e, improper) ↦ (
            wrapped "cast vote" e,
            ground arith,
            inr (validate_ballot_refusal p cmd.option_ids e improper),
          )
          | inl (_, proper) ↦ absurd (
              bad (
                (check_open_at-IsOpenAt p now).0 opened,
                (validate_ballot-IsBallot p cmd.option_ids).0 proper,
              ))
        ]
      ]
