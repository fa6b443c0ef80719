-- ===== src/VoteStore/Guard.antt =====
-- What the guard lets through (internal/votestore).
use voting_service.Base.{
  ℕ, suc, ◌+◌, ◌<◌, String, ◌≡◌, ◌∙◌, ap, sym, Bool, ◌&&◌, List, [], ◌∷◌, length, arith, ltb, leb,
  if◌then◌else◌, str_eq, str_eq_ne, str_eq_refl,
}
use voting_service.Entity.Errors.{Result, ok}
use voting_service.Ports.{
  GuardRequest, Verdict, verdict_allow, verdict_rate_limited, verdict_quota_exceeded,
}
use voting_service.Redis.{Redis, RedisLaws, Net, IsUp, call_up}
use voting_service.VoteStore.Keys.{rate_key, quota_key}
use voting_service.VoteStore.Names.{rate-ne-quota}
use voting_service.VoteStore.Scripts.{charge, guard_script}
use voting_service.VoteStore.Store.{Config, seconds, guard, unavailable_as}

module _ (r : Redis) (laws : RedisLaws r) where
  -- A counter is over its limit if the limit is set and was reached before the call.
  abbrev pub over : ℕ → String → r.Db → Bool
  over limit key db = ltb 0 limit && leb limit (r.number db key)

  charge-over :
      (key : String) (limit window : ℕ) (db : r.Db)
      → (charge r key limit window db).0 ≡ over limit key db
  unfolding charge
  charge-over key limit window db = ground (arith, laws.incr_reply key db)

  -- A charge counts one at its key, where there is a limit, and nothing at others.
  charge-number :
      (key j : String) (limit window : ℕ) (db : r.Db)
      → 0 < window
      → r.number (charge r key limit window db).1 j
        ≡ (if ltb 0 limit && str_eq key j then suc (r.number db key) else r.number db j)
  unfolding charge
  charge-number key j limit window db h =
      ground (arith, laws.incr_number key j db, laws.expire_number key j window (r.incr key db).1 h)

  module _ (checksum : String → ℕ) (cfg : Config) where
    -- The verdict that the counters call for: the rate limit of the address first, then its quota
    -- for the poll, each where it is set.
    abbrev pub verdict_at : GuardRequest → r.Db → Verdict
    verdict_at req db =
        if over cfg.rate_limit (rate_key req.client_ip) db
        then verdict_rate_limited
        else if over cfg.poll_quota (quota_key req.client_ip req.poll_id) db
        then verdict_quota_exceeded
        else verdict_allow

    script_verdict :
        (req : GuardRequest) (db : r.Db)
        → 0 < seconds cfg.rate_window
        → (guard_script r
            (rate_key req.client_ip)
            (quota_key req.client_ip req.poll_id)
            cfg.rate_limit
            (seconds cfg.rate_window)
            cfg.poll_quota
            (seconds cfg.poll_quota_window)
            db).0
          ≡ verdict_at req db
    unfolding guard_script
    script_verdict req db h =
        let rate = rate_key req.client_ip in
        let quota = quota_key req.client_ip req.poll_id in
        let db₁ = (charge r rate cfg.rate_limit (seconds cfg.rate_window) db).1 in
        ground (
          arith,
          charge-over rate cfg.rate_limit (seconds cfg.rate_window) db,
          charge-over quota cfg.poll_quota (seconds cfg.poll_quota_window) db₁,
          charge-number rate quota cfg.rate_limit (seconds cfg.rate_window) db h,
          str_eq_ne rate quota (rate-ne-quota req.client_ip req.poll_id),
        )

    -- When the store answers and the rate window is a second or more, the guard's verdict is the
    -- one that the counters of the address call for: the rate limit first, then the quota for the
    -- poll, each where it is set.
    pub guard-verdict :
        (req : GuardRequest) (n : Net r)
        → IsUp n.links
        → 0 < seconds cfg.rate_window
        → (guard r checksum cfg req n).0 ≡ ok (verdict_at req n.db)
    unfolding guard unavailable_as
    guard-verdict req n answered h = rw (call_up r _ n answered) (ap ok (script_verdict req n.db h))

    script_number :
        (req : GuardRequest) (db : r.Db)
        → 0 < cfg.rate_limit
        → 0 < seconds cfg.rate_window
        → 0 < seconds cfg.poll_quota_window
        → r.number
            (guard_script r
              (rate_key req.client_ip)
              (quota_key req.client_ip req.poll_id)
              cfg.rate_limit
              (seconds cfg.rate_window)
              cfg.poll_quota
              (seconds cfg.poll_quota_window)
              db).1
            (rate_key req.client_ip)
          ≡ suc (r.number db (rate_key req.client_ip))
    unfolding guard_script
    script_number req db l h q =
        let rate = rate_key req.client_ip in
        let quota = quota_key req.client_ip req.poll_id in
        let db₁ = (charge r rate cfg.rate_limit (seconds cfg.rate_window) db).1 in
        ground (
          arith,
          charge-number rate rate cfg.rate_limit (seconds cfg.rate_window) db h,
          charge-number quota rate cfg.poll_quota (seconds cfg.poll_quota_window) db₁ q,
          str_eq_refl rate,
          str_eq_ne quota rate (λ e. rate-ne-quota req.client_ip req.poll_id (sym e)),
        )

    guard-number :
        (req : GuardRequest) (n : Net r)
        → IsUp n.links
        → 0 < cfg.rate_limit
        → 0 < seconds cfg.rate_window
        → 0 < seconds cfg.poll_quota_window
        → r.number (guard r checksum cfg req n).1.db (rate_key req.client_ip)
          ≡ suc (r.number n.db (rate_key req.client_ip))
    unfolding guard
    guard-number req n answered l h q =
        ap (λ (m : Result ℕ × Net r). r.number m.1.db (rate_key req.client_ip))
          (call_up r _ n answered)
        ∙ script_number req n.db l h q

    -- Calls of the guard in a row, of one address, for the polls in the list from the last one to
    -- the first, over a connection without faults.
    pub guards : String → List String → r.Db → r.Db
    guards ip [] db = db
    guards ip (poll_id ∷ earlier) db =
        let n : Net r = record { db = guards ip earlier db; links = [] } in
        (guard r checksum cfg (record { client_ip = ip; poll_id = poll_id }) n).1.db

    -- Each call counts at the rate key of the address.
    guards-number :
        (ip : String) (polls : List String) (db : r.Db)
        → 0 < cfg.rate_limit
        → 0 < seconds cfg.rate_window
        → 0 < seconds cfg.poll_quota_window
        → r.number (guards ip polls db) (rate_key ip) ≡ r.number db (rate_key ip) + length polls
    unfolding guards
    guards-number ip [] db l h q = omega arith
    guards-number ip (poll_id ∷ earlier) db l h q =
        let n : Net r = record { db = guards ip earlier db; links = [] } in
        let req : GuardRequest = record { client_ip = ip; poll_id = poll_id } in
        omega (arith, guard-number req n tt l h q, guards-number ip earlier db l h q)

    -- Of the calls of one address in one window, for any polls, exactly the first `RateLimit` are
    -- let through, if a rate limit and no quota is set, windows are a second or more, and no round
    -- trip is lost: after calls for any list of polls, the next call is allowed exactly if the list
    -- is shorter than the limit.
    pub guard-guards :
        (polls : List String) (req : GuardRequest) (db : r.Db)
        → 0 < cfg.rate_limit
        → cfg.poll_quota ≡ 0
        → 0 < seconds cfg.rate_window
        → 0 < seconds cfg.poll_quota_window
        → r.number db (rate_key req.client_ip) ≡ 0
        → (guard r checksum cfg req (record { db = guards req.client_ip polls db; links = [] })).0
          ≡ ok (if ltb (length polls) cfg.rate_limit then verdict_allow else verdict_rate_limited)
    guard-guards polls req db l quota h q start =
        guard-verdict req (record { db = guards req.client_ip polls db; links = [] }) tt h
        ∙ ap ok (ground (arith, guards-number req.client_ip polls db l h q))
