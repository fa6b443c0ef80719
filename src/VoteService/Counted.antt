-- ===== src/VoteService/Counted.antt =====
-- What an accepted vote does to the counts (internal/service/vote.go), for every vote store that
-- meets the contract and every poll loader that changes no votes.
use Prim.Native.String
use mathlib.Core.List.{Nodup, Nodup-cons}
use voting_service.Base.{
  ℕ, ◌+◌, ◌≡◌, refl, ◌≢◌, ◌∙◌, ap, String, Bool, false, List, [], ◌∷◌, arith, length, if◌then◌else◌,
  str_eq_iff, contains, contains-false_of_not-Mem,
}
use voting_service.Entity.Errors.{Result}
use mathlib.Core.Path.{ap₂}
use voting_service.Ports.{GuardRequest, Ballot, VoteStore, PollLoader}
use voting_service.VoteStore.Ballots.{occurs}
use voting_service.VoteService.Accepted.{
  IsAccepted, loaded, guarded, request_of, ballot_of, cast-IsAccepted,
}
use voting_service.VoteService.Cast.{VoteCommand, cast}
use voting_service.VoteService.Contract.{VoteStoreLaws}

occurs_absent : (o : String) (ids : List String) → contains o ids ≡ false → occurs o ids ≡ 0
unfolding contains
occurs_absent o [] h = refl
occurs_absent o (id ∷ ids) h = ground (arith, occurs_absent o ids, str_eq_iff o id, str_eq_iff id o)

-- On a ballot with distinct options, an option stands once or not at all.
occurs-Nodup :
    (o : String) (ids : List String) → Nodup ids → occurs o ids ≡ (if contains o ids then 1 else 0)
unfolding contains
occurs-Nodup o [] d = refl
occurs-Nodup o (id ∷ ids) d =
    let (fresh, rest) = Nodup-cons.0 d in
    ground (
      arith,
      occurs-Nodup o ids rest,
      contains-false_of_not-Mem id ids fresh,
      str_eq_iff o id,
      str_eq_iff id o,
    )

module _ {W : Type 0} (uuid_valid : String → Bool) (sha256 : List ℕ → List ℕ) (polls : PollLoader W)
    (store : VoteStore W) (votes : W → String → String → ℕ) (Fits : ℕ → W → Type 0)
    (laws : VoteStoreLaws store votes Fits) where
  -- What is counted, under the identifier of the command.
  counted_under :
      (now : ℕ) (cmd : VoteCommand) (w : W) (o : String)
      → IsAccepted uuid_valid sha256 polls store now cmd w
      → votes (loaded uuid_valid sha256 polls store cmd w) cmd.poll_id o ≡ votes w cmd.poll_id o
      → Fits (length cmd.option_ids) (loaded uuid_valid sha256 polls store cmd w)
      → votes (cast uuid_valid sha256 polls store now cmd w).1 cmd.poll_id o
        ≡ votes w cmd.poll_id o + (if contains o cmd.option_ids then 1 else 0)
  counted_under now cmd w o a same fits =
      ap (λ (m : Result (Unit {0}) × W). votes m.1 cmd.poll_id o)
        ((cast-IsAccepted uuid_valid sha256 polls store now cmd w).1 a)
      ∙ laws.cast_votes ballot before o a.fresh (laws.guard_Fits request _ _ fits)
      ∙ ap₂ ◌+◌ (laws.guard_votes request _ cmd.poll_id o ∙ same)
          (occurs-Nodup o cmd.option_ids a.proper.distinct)
    where
      ballot : Ballot
      ballot = ballot_of uuid_valid sha256 polls store cmd

      request : GuardRequest
      request = request_of uuid_valid sha256 polls store cmd

      before : W
      before = guarded uuid_valid sha256 polls store cmd w

  -- An accepted vote that names the poll by the poll's own identifier raises the poll's count of
  -- each option on the ballot by one and of no other option, if the vote store meets the contract,
  -- loading the poll changes no votes of it and the counters have room.
  pub cast-votes :
      (now : ℕ) (cmd : VoteCommand) (w : W) (o : String)
      → (a : IsAccepted uuid_valid sha256 polls store now cmd w) → a.poll.id ≡ cmd.poll_id
      → votes (loaded uuid_valid sha256 polls store cmd w) a.poll.id o ≡ votes w a.poll.id o
      → Fits (length cmd.option_ids) (loaded uuid_valid sha256 polls store cmd w)
      → votes (cast uuid_valid sha256 polls store now cmd w).1 a.poll.id o
        ≡ votes w a.poll.id o + (if contains o cmd.option_ids then 1 else 0)
  cast-votes now cmd w o a own same fits =
      rw own (counted_under now cmd w o a (rw own at same) fits)

  -- A vote that is accepted under an identifier other than the poll's own, of the same length,
  -- such as its upper case form, leaves every count of the poll as it was, if the vote store meets
  -- the contract, loading the poll changes no votes of it and the counters have room.
  pub cast-votes_alias :
      (now : ℕ) (cmd : VoteCommand) (w : W) (o : String)
      → (a : IsAccepted uuid_valid sha256 polls store now cmd w) → a.poll.id ≢ cmd.poll_id
      → String.count a.poll.id ≡ String.count cmd.poll_id
      → votes (loaded uuid_valid sha256 polls store cmd w) a.poll.id o ≡ votes w a.poll.id o
      → Fits (length cmd.option_ids) (loaded uuid_valid sha256 polls store cmd w)
      → votes (cast uuid_valid sha256 polls store now cmd w).1 a.poll.id o ≡ votes w a.poll.id o
  cast-votes_alias now cmd w o a alias same_length same fits =
      ap (λ (m : Result (Unit {0}) × W). votes m.1 a.poll.id o)
        ((cast-IsAccepted uuid_valid sha256 polls store now cmd w).1 a)
      ∙ laws.cast_others _ _ a.poll.id o same_length alias (laws.guard_Fits _ _ _ fits)
      ∙ laws.guard_votes _ _ a.poll.id o
      ∙ same
