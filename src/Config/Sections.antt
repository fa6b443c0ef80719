-- ===== src/Config/Sections.antt =====
-- The sections of the configuration (internal/config/config.go), each as the struct literal of `Load`
-- reads it.
use voting_service.Base.{
  ℕ, ◌*◌, ◌^◌, String, Bool, true, not, Option, [], ◌∷◌, if◌then◌else◌, str_eq,
}
use voting_service.Base.Int.{ℤ, pos}
use voting_service.Config.Loader.{
  Loading, pure, ◌>>=◌, to_int32, required_string, optional_string, integer, duration, boolean,
  string_list, one_of,
}
use voting_service.Config.Settings.{
  Level, level_debug, level_info, level_warn, level_error, SameSite, lax_mode, strict_mode,
  none_mode, millisecond, second, minute, hour, Http, Postgres, Redis, Vote, Cache, Sync, Polls,
  Cookie,
}

-- The `switch` of `parseLogLevel`.
unfoldable pub level_of : String → Level
level_of name =
    if str_eq name "debug"
    then level_debug
    else if str_eq name "warn"
    then level_warn
    else if str_eq name "error"
    then level_error
    else level_info

-- The `switch` of `parseSameSite`.
unfoldable pub same_site_of : String → SameSite
same_site_of name =
    if str_eq name "strict" then strict_mode else if str_eq name "none" then none_mode else lax_mode

-- `sameSiteName`.
unfoldable pub same_site_name : SameSite → String
same_site_name strict_mode = "strict"
same_site_name none_mode = "none"
same_site_name lax_mode = "lax"

-- `slog.Level.String`.
abbrev pub level_name : Level → String
level_name level_debug = "DEBUG"
level_name level_info = "INFO"
level_name level_warn = "WARN"
level_name level_error = "ERROR"

abbrev pub is_none_mode : SameSite → Bool
is_none_mode none_mode = true
is_none_mode _ = not true

-- A duration of so many units.
abbrev pub span : ℕ → ℕ → ℤ
span n unit = pos (n * unit)

module _ (getenv : String → String) (parse_duration : String → Option ℤ) where
  abbrev text : String → String → Loading String
  text = optional_string getenv

  abbrev number : String → ℕ → ℕ → ℕ → Loading ℤ
  number key fallback minimum maximum =
      integer getenv key (pos fallback) (pos minimum) (pos maximum)

  abbrev pub time : String → ℤ → ℤ → ℤ → Loading ℤ
  time = duration getenv parse_duration

  -- `parseLogLevel` and `parseSameSite`.
  unfoldable pub parse_log_level : String → Level → Loading Level
  parse_log_level key fallback = do
    name ← one_of getenv key (level_name fallback) ("debug" ∷ "info" ∷ "warn" ∷ "error" ∷ [])
    pure (level_of name)

  unfoldable pub parse_same_site : String → SameSite → Loading SameSite
  parse_same_site key fallback = do
    name ← one_of getenv key (same_site_name fallback) ("lax" ∷ "strict" ∷ "none" ∷ [])
    pure (same_site_of name)

  unfoldable pub load_http : Loading Http
  load_http = do
    address ← text "HTTP_ADDRESS" ":8080"
    read_header ← time "HTTP_READ_HEADER_TIMEOUT" (span 5 second) (span 1 second) (span 1 minute)
    read ← time "HTTP_READ_TIMEOUT" (span 15 second) (span 1 second) (span 5 minute)
    write ← time "HTTP_WRITE_TIMEOUT" (span 15 second) (span 1 second) (span 5 minute)
    idle ← time "HTTP_IDLE_TIMEOUT" (span 90 second) (span 1 second) (span 10 minute)
    header_bytes ← number "HTTP_MAX_HEADER_BYTES" (2 ^ 14) (2 ^ 10) (2 ^ 20)
    request_bytes ← number "HTTP_MAX_REQUEST_BYTES" (2 ^ 16) (2 ^ 10) (2 ^ 23)
    request ← time "HTTP_REQUEST_TIMEOUT" (span 5 second) (span 100 millisecond) (span 1 minute)
    shutdown ← time "HTTP_SHUTDOWN_TIMEOUT" (span 20 second) (span 1 second) (span 5 minute)
    pure (record {
      address = address;
      read_header_timeout = read_header;
      read_timeout = read;
      write_timeout = write;
      idle_timeout = idle;
      max_header_bytes = header_bytes;
      max_request_bytes = request_bytes;
      request_timeout = request;
      shutdown_timeout = shutdown;
    })

  unfoldable pub load_postgres : Loading Postgres
  load_postgres = do
    dsn ← required_string getenv "DATABASE_URL"
    most ← number "DATABASE_MAX_CONNS" 20 1 500
    least ← number "DATABASE_MIN_CONNS" 2 0 500
    lifetime ← time "DATABASE_MAX_CONN_LIFETIME" (span 30 minute) (span 1 minute) (span 24 hour)
    idle ← time "DATABASE_MAX_CONN_IDLE_TIME" (span 5 minute) (span 1 second) (span 1 hour)
    connect ← time "DATABASE_CONNECT_TIMEOUT" (span 10 second) (span 1 second) (span 1 minute)
    pure (record {
      dsn = dsn;
      max_conns = to_int32 most;
      min_conns = to_int32 least;
      max_conn_lifetime = lifetime;
      max_conn_idle_time = idle;
      connect_timeout = connect;
    })

  unfoldable pub load_redis : Loading Redis
  load_redis = do
    username ← text "REDIS_USERNAME" ""
    password ← text "REDIS_PASSWORD" ""
    db ← number "REDIS_DB" 0 0 15
    master ← text "REDIS_MASTER_NAME" ""
    pool ← number "REDIS_POOL_SIZE" 128 1 10000
    idle ← number "REDIS_MIN_IDLE_CONNS" 16 0 10000
    dial ← time "REDIS_DIAL_TIMEOUT" (span 2 second) (span 100 millisecond) (span 1 minute)
    read ← time "REDIS_READ_TIMEOUT" (span 500 millisecond) (span 50 millisecond) (span 30 second)
    write ← time "REDIS_WRITE_TIMEOUT" (span 500 millisecond) (span 50 millisecond) (span 30 second)
    retries ← number "REDIS_MAX_RETRIES" 2 0 10
    pure (record {
      addresses = string_list getenv "REDIS_ADDRESSES";
      username = username;
      password = password;
      db = db;
      master_name = master;
      pool_size = pool;
      min_idle_conns = idle;
      dial_timeout = dial;
      read_timeout = read;
      write_timeout = write;
      max_retries = retries;
    })

  unfoldable pub load_vote : Loading Vote
  load_vote = do
    shards ← number "VOTE_SHARDS" 16 1 1024
    dedup ← time "VOTE_DEDUP_TTL" (span 1 hour) (span 1 minute) (span 720 hour)
    retention ← time "VOTE_COUNTER_RETENTION" (span 168 hour) (span 1 hour) (span 2160 hour)
    rate_limit ← number "VOTE_RATE_LIMIT" 100 0 1000000
    rate_window ← time "VOTE_RATE_WINDOW" (span 10 second) (span 1 second) (span 1 hour)
    quota ← number "VOTE_POLL_IP_QUOTA" 0 0 1000000
    quota_window ← time "VOTE_POLL_IP_QUOTA_WINDOW" (span 1 hour) (span 1 minute) (span 720 hour)
    pure (record {
      shards = shards;
      dedup_ttl = dedup;
      counter_retention = retention;
      rate_limit = rate_limit;
      rate_window = rate_window;
      poll_ip_quota = quota;
      poll_ip_quota_window = quota_window;
    })

  unfoldable pub load_cache : Loading Cache
  load_cache = do
    near ← time "POLL_CACHE_LOCAL_TTL" (span 2 second) (span 100 millisecond) (span 1 minute)
    shared ← time "POLL_CACHE_SHARED_TTL" (span 1 minute) (span 1 second) (span 1 hour)
    negative ← time "POLL_CACHE_NEGATIVE_TTL" (span 10 second) (span 1 second) (span 10 minute)
    capacity ← number "POLL_CACHE_CAPACITY" 4096 16 (2 ^ 20)
    pure (record {
      local_ttl = near;
      shared_ttl = shared;
      negative_ttl = negative;
      capacity = capacity;
    })

  unfoldable pub load_sync : Loading Sync
  load_sync = do
    timeout ← time "SYNC_TIMEOUT" (span 30 second) (span 1 second) (span 10 minute)
    settle ← time "SYNC_SETTLE_AFTER" (span 10 minute) (span 1 minute) (span 24 hour)
    pure (record { timeout = timeout; settle_after = settle })

  unfoldable pub load_polls : Loading Polls
  load_polls = do
    question ← number "POLL_MAX_QUESTION_LENGTH" 500 10 10000
    option ← number "POLL_MAX_OPTION_LENGTH" 200 1 10000
    options ← number "POLL_MAX_OPTIONS" 20 2 1000
    default_size ← number "POLL_PAGE_SIZE_DEFAULT" 20 1 1000
    max_size ← number "POLL_PAGE_SIZE_MAX" 100 1 1000
    pure (record {
      max_question_length = question;
      max_option_length = option;
      max_options = options;
      default_page_size = default_size;
      max_page_size = max_size;
    })

  unfoldable pub load_cookie : Loading Cookie
  load_cookie = do
    name ← text "VOTER_COOKIE_NAME" "voter_id"
    ttl ← time "VOTER_COOKIE_TTL" (span 720 hour) (span 1 hour) (span 8760 hour)
    secure ← boolean getenv "VOTER_COOKIE_SECURE" true
    same_site ← parse_same_site "VOTER_COOKIE_SAMESITE" lax_mode
    domain ← text "VOTER_COOKIE_DOMAIN" ""
    pure
        (record { name = name; ttl = ttl; secure = secure; same_site = same_site; domain = domain })
