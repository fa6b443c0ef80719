-- ===== src/VoteService/Cast.antt =====
-- `VoteService` (internal/service/vote.go). `uuid.Validate` and SHA-256 are parameters; the time that
-- `s.now()` reads in a call is an argument.
use voting_service.Base.{
  ℕ, zero, suc, ◌/◌, ◌%◌, String, Bool, not, List, [], ◌∷◌, ◌++◌, take, ◌==◌, if◌then◌else◌, str_eq,
  trim_space, bytes,
}
use Prim.Native.Char.{Char}
use voting_service.Entity.Errors.{
  err_poll_not_found, new_error, invalid_request, rate_limited, quota_exceeded,
}
use voting_service.Entity.Poll.{Poll, check_open_at, validate_ballot}
use voting_service.Ports.{
  Action, pure, raise, lift, ◌>>=◌, ◌>>◌, wrapping, Verdict, verdict_rate_limited,
  verdict_quota_exceeded, VoteStore, PollLoader,
}

pub record VoteCommand : Type 0 where
  pub poll_id : String
  pub option_ids : List String
  pub voter_token : String
  pub client_ip : String

hex_digit : ℕ → Char
hex_digit zero = "0"
hex_digit (suc zero) = "1"
hex_digit (suc (suc zero)) = "2"
hex_digit (suc (suc (suc zero))) = "3"
hex_digit (suc (suc (suc (suc zero)))) = "4"
hex_digit (suc (suc (suc (suc (suc zero))))) = "5"
hex_digit (suc (suc (suc (suc (suc (suc zero)))))) = "6"
hex_digit (suc (suc (suc (suc (suc (suc (suc zero))))))) = "7"
hex_digit (suc (suc (suc (suc (suc (suc (suc (suc zero)))))))) = "8"
hex_digit (suc (suc (suc (suc (suc (suc (suc (suc (suc zero))))))))) = "9"
hex_digit (suc (suc (suc (suc (suc (suc (suc (suc (suc (suc zero)))))))))) = "a"
hex_digit (suc (suc (suc (suc (suc (suc (suc (suc (suc (suc (suc zero))))))))))) = "b"
hex_digit (suc (suc (suc (suc (suc (suc (suc (suc (suc (suc (suc (suc zero)))))))))))) = "c"
hex_digit (suc (suc (suc (suc (suc (suc (suc (suc (suc (suc (suc (suc (suc zero))))))))))))) = "d"
hex_digit (suc (suc (suc (suc (suc (suc (suc (suc (suc (suc (suc (suc (suc (suc zero)))))))))))))) =
    "e"
hex_digit _ = "f"

-- `hex.EncodeToString`.
unfoldable pub hex : List ℕ → String
unfolding hex_digit
hex [] = ""
hex (b ∷ bs) = String.◌∷◌ (hex_digit (b / 16)) (String.◌∷◌ (hex_digit (b % 16)) (hex bs))

-- What `VoterHash` digests: the poll, a zero byte, the token.
unfoldable pub hash_input : String → String → List ℕ
hash_input poll_id voter_token = bytes poll_id ++ (0 ∷ bytes voter_token)

-- `VoterHash`.
unfoldable pub voter_hash : (List ℕ → List ℕ) → String → String → String
voter_hash sha256 poll_id voter_token = hex (take 16 (sha256 (hash_input poll_id voter_token)))

-- The `switch` on the verdict.
unfoldable pub admit : {W : Type 0} → Verdict → Action W (Unit {0})
admit verdict =
    if verdict == verdict_rate_limited
    then raise (new_error rate_limited "too many requests, please retry shortly")
    else if verdict == verdict_quota_exceeded
    then raise (new_error quota_exceeded "vote limit for this network has been reached")
    else pure tt

module _ {W : Type 0} (uuid_valid : String → Bool) (sha256 : List ℕ → List ℕ) (polls : PollLoader W)
    (store : VoteStore W) where
  -- The steps of `Cast` after the poll is loaded.
  unfoldable pub cast_in : ℕ → VoteCommand → Poll → Action W (Unit {0})
  cast_in now cmd poll = do
    wrapping "cast vote" (lift (check_open_at poll now))
    wrapping "cast vote" (lift (validate_ballot poll cmd.option_ids))
    verdict ←
        wrapping "cast vote"
          (store.guard (record { client_ip = cmd.client_ip; poll_id = cmd.poll_id }))
    admit verdict
    wrapping "cast vote" (
        store.cast_ballot (record {
          poll_id = cmd.poll_id;
          voter_hash = voter_hash sha256 cmd.poll_id cmd.voter_token;
          option_ids = cmd.option_ids;
        }))

  -- `VoteService.Cast`.
  unfoldable pub cast : ℕ → VoteCommand → Action W (Unit {0})
  cast now cmd =
      if not (uuid_valid cmd.poll_id)
      then raise err_poll_not_found
      else if str_eq (trim_space cmd.voter_token) ""
      then raise (new_error invalid_request "voter token is required")
      else (do poll ← wrapping "cast vote" (polls.poll cmd.poll_id); cast_in now cmd poll)
