-- ===== src/Config/Sound.antt =====
-- What every configuration that `Load` (internal/config/config.go) returns satisfies.
use Prim.Native.String.{len}
use voting_service.Base.{
  ℕ, ◌*◌, ◌^◌, ◌≤◌, String, true, false, ◌≡◌, refl, sym, Option, List, [], ◌∷◌, length, ◌==◌,
  if◌then◌else◌, str_eq, arith,
}
use voting_service.Base.Int.{ℤ, pos, ltb_ℤ}
use voting_service.Config.Loader.{one_of, Problem, integer, duration, secret, fail_if}
use voting_service.Config.Load.{
  load, finish_load, examine, read_settings, loaded, check_settings, validate_production,
}
use voting_service.Config.Sections.{
  load_vote, load_cache, load_sync, load_polls, load_postgres, load_http, load_redis,
  parse_log_level,
}
use voting_service.Config.Settings.{
  Settings, environment_production, environment_development, level_info, second, minute, hour,
  millisecond,
}
use voting_service.Config.Valid.{
  Within, integer-Within, duration-Within, to_int32-Within, quiet-append, quiet-fail_if,
  quiet-secret,
}

-- The limits of the numbers and durations that the services are built with.
pub record HasLimits {Prefix : Type 0} (cfg : Settings Prefix) : Type 0 where
  shards : Within 1 1024 cfg.vote.shards
  dedup_ttl : Within (1 * minute) (720 * hour) cfg.vote.dedup_ttl
  counter_retention : Within (1 * hour) (2160 * hour) cfg.vote.counter_retention
  rate_limit : Within 0 1000000 cfg.vote.rate_limit
  rate_window : Within (1 * second) (1 * hour) cfg.vote.rate_window
  poll_ip_quota : Within 0 1000000 cfg.vote.poll_ip_quota
  poll_ip_quota_window : Within (1 * minute) (720 * hour) cfg.vote.poll_ip_quota_window
  local_ttl : Within (100 * millisecond) (1 * minute) cfg.cache.local_ttl
  shared_ttl : Within (1 * second) (1 * hour) cfg.cache.shared_ttl
  negative_ttl : Within (1 * second) (10 * minute) cfg.cache.negative_ttl
  capacity : Within 16 (2 ^ 20) cfg.cache.capacity
  sync_timeout : Within (1 * second) (10 * minute) cfg.sync.timeout
  settle_after : Within (1 * minute) (24 * hour) cfg.sync.settle_after
  max_options : Within 2 1000 cfg.polls.max_options
  default_page_size : Within 1 1000 cfg.polls.default_page_size
  max_page_size : Within 1 1000 cfg.polls.max_page_size
  max_conns : Within 1 500 cfg.postgres.max_conns
  min_conns : Within 0 500 cfg.postgres.min_conns
  max_request_bytes : Within (2 ^ 10) (2 ^ 23) cfg.http.max_request_bytes

-- The settings agree with each other.
pub record IsConsistent {Prefix : Type 0} (cfg : Settings Prefix) : Type 0 where
  addresses : (length cfg.redis.addresses == 0) ≡ false
  conns : ltb_ℤ cfg.postgres.max_conns cfg.postgres.min_conns ≡ false
  page_sizes : ltb_ℤ cfg.polls.max_page_size cfg.polls.default_page_size ≡ false
  ttls : ltb_ℤ cfg.cache.shared_ttl cfg.cache.local_ttl ≡ false
  production : str_eq cfg.environment environment_production ≡ true → cfg.cookie.secure ≡ true
  token : 32 ≤ len cfg.admin.token

module _ {Prefix : Type 0} (getenv : String → String) (parse_duration : String → Option ℤ)
    (parse_prefix : String → Option Prefix) where
  number-Within :
      (key : String) (fallback low high : ℕ)
      → (low ≤ fallback) × (fallback ≤ high)
      → Within low high ((integer getenv key (pos fallback) (pos low) (pos high)).0)
  unfolding Within
  number-Within = integer-Within getenv

  time-Within :
      (key : String) (fallback low high : ℕ)
      → (low ≤ fallback) × (fallback ≤ high)
      → Within low high ((duration getenv parse_duration key (pos fallback) (pos low) (pos high)).0)
  unfolding Within
  time-Within = duration-Within getenv parse_duration

  read_settings-HasLimits : HasLimits ((read_settings getenv parse_duration parse_prefix).0)
  unfolding read_settings load_vote load_cache load_sync load_polls load_postgres load_http
  read_settings-HasLimits = record {
    shards = number-Within "VOTE_SHARDS" 16 1 1024 (omega arith);
    dedup_ttl = time-Within "VOTE_DEDUP_TTL" (1 * hour) (1 * minute) (720 * hour) (omega arith);
    counter_retention =
        time-Within "VOTE_COUNTER_RETENTION" (168 * hour) (1 * hour) (2160 * hour) (omega arith);
    rate_limit = number-Within "VOTE_RATE_LIMIT" 100 0 1000000 (omega arith);
    rate_window =
        time-Within "VOTE_RATE_WINDOW" (10 * second) (1 * second) (1 * hour) (omega arith);
    poll_ip_quota = number-Within "VOTE_POLL_IP_QUOTA" 0 0 1000000 (omega arith);
    poll_ip_quota_window =
        time-Within "VOTE_POLL_IP_QUOTA_WINDOW" (1 * hour) (1 * minute) (720 * hour) (omega arith);
    local_ttl =
        time-Within "POLL_CACHE_LOCAL_TTL" (2 * second) (100 * millisecond) (1 * minute)
          (omega arith);
    shared_ttl =
        time-Within "POLL_CACHE_SHARED_TTL" (1 * minute) (1 * second) (1 * hour) (omega arith);
    negative_ttl =
        time-Within "POLL_CACHE_NEGATIVE_TTL" (10 * second) (1 * second) (10 * minute)
          (omega arith);
    capacity = number-Within "POLL_CACHE_CAPACITY" 4096 16 (2 ^ 20) (omega arith);
    sync_timeout =
        time-Within "SYNC_TIMEOUT" (30 * second) (1 * second) (10 * minute) (omega arith);
    settle_after =
        time-Within "SYNC_SETTLE_AFTER" (10 * minute) (1 * minute) (24 * hour) (omega arith);
    max_options = number-Within "POLL_MAX_OPTIONS" 20 2 1000 (omega arith);
    default_page_size = number-Within "POLL_PAGE_SIZE_DEFAULT" 20 1 1000 (omega arith);
    max_page_size = number-Within "POLL_PAGE_SIZE_MAX" 100 1 1000 (omega arith);
    max_conns =
        to_int32-Within 1 500 _ (omega arith)
          (number-Within "DATABASE_MAX_CONNS" 20 1 500 (omega arith));
    min_conns =
        to_int32-Within 0 500 _ (omega arith)
          (number-Within "DATABASE_MIN_CONNS" 2 0 500 (omega arith));
    max_request_bytes =
        number-Within "HTTP_MAX_REQUEST_BYTES" (2 ^ 16) (2 ^ 10) (2 ^ 23) (omega arith);
  }

  -- The problems of the parts of `Load` that come before the admin token, in order.
  read_settings-token :
      (read_settings getenv parse_duration parse_prefix).1 ≡ []
      → 32 ≤ len ((read_settings getenv parse_duration parse_prefix).0.admin.token)
  unfolding read_settings
  read_settings-token quiet =
      let environments = environment_development ∷ environment_production ∷ [] in
      let (_, q1) =
        quiet-append ((one_of getenv "APP_ENV" environment_development environments).1) _ quiet in
      let (_, q2) =
        quiet-append ((parse_log_level getenv parse_duration "LOG_LEVEL" level_info).1) _ q1 in
      let (_, q3) = quiet-append ((load_http getenv parse_duration).1) _ q2 in
      let (_, q4) = quiet-append ((load_postgres getenv parse_duration).1) _ q3 in
      let (_, q5) = quiet-append ((load_redis getenv parse_duration).1) _ q4 in
      quiet-secret getenv "ADMIN_TOKEN" 32
        ((quiet-append ((secret getenv "ADMIN_TOKEN" 32).1) _ q5).0)

validate_production-secure :
    {Prefix : Type 0} (cfg : Settings Prefix)
    → ((if str_eq cfg.environment environment_production
          then validate_production cfg.cookie
          else (tt, [])).1
        ≡ [])
    → str_eq cfg.environment environment_production ≡ true
    → cfg.cookie.secure ≡ true
unfolding validate_production fail_if
validate_production-secure cfg quiet production = grind arith

check_settings-IsConsistent :
    {Prefix : Type 0} (cfg : Settings Prefix)
    → (check_settings cfg).1 ≡ []
    → 32 ≤ len cfg.admin.token
    → IsConsistent cfg
unfolding check_settings
check_settings-IsConsistent cfg quiet token =
    let (a, quiet1) = quiet-append _ _ quiet in
    let (b, quiet2) = quiet-append _ _ quiet1 in
    let (c, quiet3) = quiet-append _ _ quiet2 in
    let (d, quiet4) = quiet-append _ _ quiet3 in
    record {
      addresses = quiet-fail_if _ _ a;
      conns = quiet-fail_if _ _ b;
      page_sizes = quiet-fail_if _ _ c;
      ttls = quiet-fail_if _ _ d;
      production = validate_production-secure cfg quiet4;
      token = token;
    }

finish_load-ok :
    {Prefix : Type 0} (cfg cfg2 : Settings Prefix) (problems : List Problem)
    → finish_load cfg problems ≡ loaded cfg2
    → (problems ≡ []) × (cfg ≡ cfg2)
unfolding finish_load
finish_load-ok cfg cfg2 [] e = (refl, cc e)
finish_load-ok cfg cfg2 (p ∷ ps) e = absurd (cc e)

-- A configuration that loads, from any environment, has the numbers and durations of `HasLimits`
-- within their limits, and settings that agree: at least one Redis address, a minimum of connections
-- not above the maximum, a default page size not above the largest, a local time to live not above
-- the shared one, a secure cookie in production, and an admin token of at least 32 bytes.
pub load-IsSound :
    {Prefix : Type 0} (getenv : String → String) (parse_duration : String → Option ℤ)
    (parse_prefix : String → Option Prefix) (cfg : Settings Prefix)
    → load getenv parse_duration parse_prefix ≡ loaded cfg
    → HasLimits cfg × IsConsistent cfg
unfolding load examine
load-IsSound getenv parse_duration parse_prefix cfg e =
    let (quiet, same) = finish_load-ok _ cfg _ e in
    let (quiet1, quiet2) = quiet-append _ _ quiet in
    let token = read_settings-token getenv parse_duration parse_prefix quiet1 in
    rw (sym same) (
      read_settings-HasLimits getenv parse_duration parse_prefix,
      check_settings-IsConsistent _ ((quiet-append _ _ quiet2).0) token,
    )
