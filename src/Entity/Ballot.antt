-- ===== src/Entity/Ballot.antt =====
-- What `ValidateBallot` accepts (internal/entity/poll.go).
use mathlib.Core.List.{
  Mem, Nodup, Nodup-nil, Mem-prop, Nodup-cons, not-mem-nil, eq-or-mem_of_mem-cons, mem-cons_self,
  mem-cons_of_mem,
}
use mathlib.Core.HLevel.{⊥_prop}
use mathlib.Core.Logic.Or
use voting_service.Base.{
  String, ◌≡◌, refl, ◌≢◌, ◌↔◌, true, false, List, [], ◌∷◌, arith, length, contains, Mem_of_contains,
  contains_of_Mem, not-Mem_of_contains, contains-false_of_not-Mem,
}
use voting_service.Base.Int.{pos, ◌≤ℤ◌}
use voting_service.Entity.Errors.{Error, ok, err, code_of, invalid_request}
use voting_service.Entity.Poll.{
  Poll, option_ids, effective_max_choices, check_options, validate_ballot,
}

-- An independent description of the loop: every entry is known, none was seen, none repeats.
abbrev Fresh : List String → List String → Type 0
Fresh seen ids = (a : String) → Mem a ids → ¬ Mem a seen

abbrev Known : List String → List String → Type 0
Known known ids = (a : String) → Mem a ids → Mem a known

-- A ballot for a poll: not empty, within the poll's limit, of the poll's options, each once.
pub record IsBallot (p : Poll) (ids : List String) : Type 0 where
  pub chosen : ids ≢ []
  pub within : pos (length ids) ≤ℤ effective_max_choices p
  pub known : (a : String) → Mem a ids → Mem a (option_ids p)
  pub distinct : Nodup ids

check_options_sound :
    (known seen ids : List String)
    → check_options known seen ids ≡ ok tt
    → Known known ids × Fresh seen ids × Nodup ids
unfolding check_options
check_options_sound known seen [] h =
    (λ a m. absurd (not-mem-nil m), λ a m. absurd (not-mem-nil m), Nodup-nil)
check_options_sound known seen (id ∷ ids) h =
    let k : contains id known ≡ true = ground arith in
    let s : contains id seen ≡ false = ground arith in
    let (known_rest, fresh_rest, distinct) =
      check_options_sound known (id ∷ seen) ids (ground arith) in
    (
      λ a m.
          Or.elim Mem-prop (eq-or-mem_of_mem-cons m) (λ e. rw e (Mem_of_contains id known k))
            (λ n. known_rest a n),
      λ a m n.
          Or.elim ⊥_prop (eq-or-mem_of_mem-cons m) (λ e. not-Mem_of_contains id seen s (rw e at n))
            (λ r. fresh_rest a r (mem-cons_of_mem id n)),
      Nodup-cons.1 (λ m. fresh_rest id m mem-cons_self, distinct),
    )

check_options_complete :
    (known seen ids : List String)
    → Known known ids
    → Fresh seen ids
    → Nodup ids
    → check_options known seen ids ≡ ok tt
unfolding check_options
check_options_complete known seen [] k f d = refl
check_options_complete known seen (id ∷ ids) k f d =
    let (fresh_head, distinct) = Nodup-cons.0 d in
    ground (
      arith,
      contains_of_Mem id known (k id mem-cons_self),
      contains-false_of_not-Mem id seen (f id mem-cons_self),
      check_options_complete known (id ∷ seen) ids (λ a m. k a (mem-cons_of_mem id m))
          (λ a m n.
            Or.elim ⊥_prop (eq-or-mem_of_mem-cons n) (λ e. fresh_head (rw e at m))
              (λ r. f a (mem-cons_of_mem id m) r))
          distinct,
    )

check_options_code :
    (known seen ids : List String) (e : Error)
    → check_options known seen ids ≡ err e
    → code_of e ≡ invalid_request
unfolding check_options code_of
check_options_code known seen [] e h = cc
check_options_code known seen (id ∷ ids) e h =
    ground (arith, check_options_code known (id ∷ seen) ids e)

IsBallot-of_accepted :
    (p : Poll) (ids : List String) → validate_ballot p ids ≡ ok tt → IsBallot p ids
unfolding validate_ballot
IsBallot-of_accepted p [] h = cc
IsBallot-of_accepted p (id ∷ ids) h =
    let (known, fresh, distinct) =
      check_options_sound (option_ids p) [] (id ∷ ids) (ground arith) in
    record { chosen = λ e. cc; within = ground arith; known = known; distinct = distinct }

accepted_of_IsBallot :
    (p : Poll) (ids : List String) → IsBallot p ids → validate_ballot p ids ≡ ok tt
unfolding validate_ballot
accepted_of_IsBallot p [] b = absurd (b.chosen refl)
accepted_of_IsBallot p (id ∷ ids) b = ground (
  arith,
  b.within,
  check_options_complete (option_ids p) [] (id ∷ ids) b.known (λ a m. not-mem-nil) b.distinct,
)

-- A ballot is accepted exactly when it names at least one option, no more than the poll's effective
-- limit, only options of the poll, and no option twice.
pub validate_ballot-IsBallot :
    (p : Poll) (ids : List String) → (validate_ballot p ids ≡ ok tt) ↔ IsBallot p ids
validate_ballot-IsBallot p ids = (IsBallot-of_accepted p ids, accepted_of_IsBallot p ids)

-- Every refusal of a ballot is an invalid request.
pub validate_ballot_refusal :
    (p : Poll) (ids : List String) (e : Error)
    → validate_ballot p ids ≡ err e
    → code_of e ≡ invalid_request
unfolding validate_ballot code_of
validate_ballot_refusal p [] e h = ground arith
validate_ballot_refusal p (id ∷ ids) e h =
    ground (arith, check_options_code (option_ids p) [] (id ∷ ids) e)
