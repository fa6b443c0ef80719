-- ===== src/VoteStore/Scripts.antt =====
-- The Lua scripts of the vote store (internal/votestore/scripts.go). Redis runs a script as one step.
use voting_service.Base.{
  ℕ, String, Bool, true, false, Option, none, some, not, List, [], ◌∷◌, ltb, ◌==◌, if◌then◌else◌,
}
use voting_service.Redis.{Redis}

module _ (r : Redis) where
  -- One of the two counters of the guard: whether a call exceeds the limit, where there is one.
  unfoldable pub charge : String → ℕ → ℕ → r.Db → Bool × r.Db
  charge key limit window db =
      if ltb 0 limit
      then (let (hits, db') = r.incr key db in
          (ltb limit hits, if hits == 1 then r.expire key window db' else db'))
      else (false, db)

  -- `guardScript`.
  unfoldable pub guard_script : String → String → ℕ → ℕ → ℕ → ℕ → r.Db → ℕ × r.Db
  guard_script rate quota rate_limit rate_window quota_limit quota_window db =
      let (limited, db₁) = charge rate rate_limit rate_window db in
      if limited
      then (1, db₁)
      else let (exceeded, db₂) = charge quota quota_limit quota_window db₁ in
        (if exceeded then 2 else 0, db₂)

  -- The loop of `HINCRBY` over the options, which an error ends, with what was added before it.
  unfoldable pub add_votes : String → List String → r.Db → Bool × r.Db
  add_votes counts [] db = (true, db)
  add_votes counts (id ∷ ids) db =
      let (added, db') = r.hincrby counts id db in
      let rest = add_votes counts ids db' in if added then rest else (false, db')

  -- The script after the reply of `SET`, an error or whether the slot was claimed; `none` is the
  -- error of a script that a command aborts, which keeps the writes before it.
  unfoldable pub count_ballot : String → ℕ → List String → Option Bool → r.Db → Option ℕ × r.Db
  count_ballot counts retention ids none db = (none, db)
  count_ballot counts retention ids (some false) db = (some 0, db)
  count_ballot counts retention ids (some true) db =
      let fresh = not (r.exists counts db) in
      let (added, db') = add_votes counts ids db in
      if not added
      then (none, db')
      else (some 1, if fresh then r.expire counts retention db' else db')

  -- `castBallotScript`.
  unfoldable pub cast_ballot_script : String → String → ℕ → ℕ → List String → r.Db → Option ℕ × r.Db
  cast_ballot_script voted counts dedup_ttl retention ids db =
      let (claimed, db') = r.set_nx voted "1" dedup_ttl db in
      count_ballot counts retention ids claimed db'
