-- ===== src/Config/Load.antt =====
-- `Load` (internal/config/config.go): the variables in the order of the struct literal, then the
-- checks across settings. The file that `godotenv.Load` adds to the environment is part of `getenv`.
use voting_service.Base.{
  String, not, ◌&&◌, Option, List, [], ◌∷◌, length, ◌==◌, if◌then◌else◌, str_eq,
}
use voting_service.Base.Int.{ℤ, pos, ltb_ℤ}
use voting_service.Config.Loader.{
  Problem, required, inconsistent, Loading, pure, ◌>>=◌, ◌>>◌, fail_if, secret, prefix_list, one_of,
}
use voting_service.Config.Settings.{
  environment_development, environment_production, level_info, millisecond, second, minute, Cookie,
  Settings,
}
use voting_service.Config.Sections.{
  span, time, is_none_mode, parse_log_level, load_http, load_postgres, load_redis, load_vote,
  load_cache, load_sync, load_polls, load_cookie,
}

-- `validateProduction`.
unfoldable pub validate_production : Cookie → Loading (Unit {0})
validate_production cookie = do
  fail_if (not cookie.secure) (inconsistent "VOTER_COOKIE_SECURE must be true in production")
  fail_if (is_none_mode cookie.same_site && not cookie.secure)
      (inconsistent "VOTER_COOKIE_SAMESITE=none requires VOTER_COOKIE_SECURE=true")

-- The checks of `Load` across settings.
unfoldable pub check_settings : {Prefix : Type 0} → Settings Prefix → Loading (Unit {0})
check_settings cfg = do
  fail_if (length cfg.redis.addresses == 0) (required "REDIS_ADDRESSES")
  fail_if (ltb_ℤ cfg.postgres.max_conns cfg.postgres.min_conns)
      (inconsistent "DATABASE_MIN_CONNS must not exceed DATABASE_MAX_CONNS")
  fail_if (ltb_ℤ cfg.polls.max_page_size cfg.polls.default_page_size)
      (inconsistent "POLL_PAGE_SIZE_DEFAULT must not exceed POLL_PAGE_SIZE_MAX")
  fail_if (ltb_ℤ cfg.cache.shared_ttl cfg.cache.local_ttl)
      (inconsistent "POLL_CACHE_LOCAL_TTL must not exceed POLL_CACHE_SHARED_TTL")
  (if str_eq cfg.environment environment_production
      then validate_production cfg.cookie
      else pure tt)

module _ (getenv : String → String) (parse_duration : String → Option ℤ) where
  -- The struct literal of `Load`.
  unfoldable pub read_settings :
      {Prefix : Type 0} → (String → Option Prefix) → Loading (Settings Prefix)
  read_settings parse_prefix = do
    environment ←
        one_of getenv "APP_ENV" environment_development
          (environment_development ∷ environment_production ∷ [])
    log_level ← parse_log_level getenv parse_duration "LOG_LEVEL" level_info
    http ← load_http getenv parse_duration
    postgres ← load_postgres getenv parse_duration
    redis ← load_redis getenv parse_duration
    token ← secret getenv "ADMIN_TOKEN" 32
    vote ← load_vote getenv parse_duration
    cache ← load_cache getenv parse_duration
    sync ← load_sync getenv parse_duration
    polls ← load_polls getenv parse_duration
    cookie ← load_cookie getenv parse_duration
    probe_timeout ←
        time getenv parse_duration "PROBE_TIMEOUT" (span 2 second) (span 100 millisecond)
          (span 30 second)
    probe_cache_for ←
        time getenv parse_duration "PROBE_CACHE_FOR" (span 1 second) (pos 0) (span 1 minute)
    trusted ← prefix_list getenv parse_prefix "TRUSTED_PROXY_CIDRS"
    pure (record {
      environment = environment;
      log_level = log_level;
      http = http;
      postgres = postgres;
      redis = redis;
      admin = record { token = token };
      vote = vote;
      cache = cache;
      sync = sync;
      polls = polls;
      cookie = cookie;
      probe_timeout = probe_timeout;
      probe_cache_for = probe_cache_for;
      trusted_proxies = trusted;
    })

  -- `Load`: the configuration, with the problems that were found.
  unfoldable pub examine : {Prefix : Type 0} → (String → Option Prefix) → Loading (Settings Prefix)
  examine parse_prefix = do cfg ← read_settings parse_prefix; check_settings cfg; pure cfg

-- `Load`'s two results.
pub data Loaded (Prefix : Type 0) : Type 0 where
  invalid : List Problem → Loaded Prefix
  loaded : Settings Prefix → Loaded Prefix

-- `l.err()` and the returns after it.
unfoldable pub finish_load : {Prefix : Type 0} → Settings Prefix → List Problem → Loaded Prefix
finish_load cfg [] = loaded cfg
finish_load cfg (problem ∷ problems) = invalid (problem ∷ problems)

unfoldable pub load :
    {Prefix : Type 0}
    → (String → String)
    → (String → Option ℤ)
    → (String → Option Prefix)
    → Loaded Prefix
load getenv parse_duration parse_prefix =
    let (cfg, problems) = examine getenv parse_duration parse_prefix in finish_load cfg problems
