-- ===== src/Config/Settings.antt =====
-- `Config` and its parts (internal/config/config.go). A duration is in nanoseconds.
use voting_service.Base.{ℕ, ◌*◌, String, Bool, List}
use voting_service.Base.Int.{ℤ}

abbrev pub environment_development : String
environment_development = "development"

abbrev pub environment_production : String
environment_production = "production"

pub data Level : Type 0 where
  level_debug level_info level_warn level_error : Level

pub data SameSite : Type 0 where
  lax_mode strict_mode none_mode : SameSite

abbrev pub millisecond : ℕ
millisecond = 1_000_000

abbrev pub second : ℕ
second = 1000 * millisecond

abbrev pub minute : ℕ
minute = 60 * second

abbrev pub hour : ℕ
hour = 60 * minute

pub record Http : Type 0 where
  pub address : String
  pub read_header_timeout : ℤ
  pub read_timeout : ℤ
  pub write_timeout : ℤ
  pub idle_timeout : ℤ
  pub max_header_bytes : ℤ
  pub max_request_bytes : ℤ
  pub request_timeout : ℤ
  pub shutdown_timeout : ℤ

pub record Postgres : Type 0 where
  pub dsn : String
  pub max_conns : ℤ
  pub min_conns : ℤ
  pub max_conn_lifetime : ℤ
  pub max_conn_idle_time : ℤ
  pub connect_timeout : ℤ

pub record Redis : Type 0 where
  pub addresses : List String
  pub username : String
  pub password : String
  pub db : ℤ
  pub master_name : String
  pub pool_size : ℤ
  pub min_idle_conns : ℤ
  pub dial_timeout : ℤ
  pub read_timeout : ℤ
  pub write_timeout : ℤ
  pub max_retries : ℤ

pub record Admin : Type 0 where
  pub token : String

pub record Vote : Type 0 where
  pub shards : ℤ
  pub dedup_ttl : ℤ
  pub counter_retention : ℤ
  pub rate_limit : ℤ
  pub rate_window : ℤ
  pub poll_ip_quota : ℤ
  pub poll_ip_quota_window : ℤ

pub record Cache : Type 0 where
  pub local_ttl : ℤ
  pub shared_ttl : ℤ
  pub negative_ttl : ℤ
  pub capacity : ℤ

pub record Sync : Type 0 where
  pub timeout : ℤ
  pub settle_after : ℤ

pub record Polls : Type 0 where
  pub max_question_length : ℤ
  pub max_option_length : ℤ
  pub max_options : ℤ
  pub default_page_size : ℤ
  pub max_page_size : ℤ

pub record Cookie : Type 0 where
  pub name : String
  pub ttl : ℤ
  pub secure : Bool
  pub same_site : SameSite
  pub domain : String

-- `Prefix` is the type of `netip.Prefix`.
pub record Settings (Prefix : Type 0) : Type 0 where
  pub environment : String
  pub log_level : Level
  pub http : Http
  pub postgres : Postgres
  pub redis : Redis
  pub admin : Admin
  pub vote : Vote
  pub cache : Cache
  pub sync : Sync
  pub polls : Polls
  pub cookie : Cookie
  pub probe_timeout : ℤ
  pub probe_cache_for : ℤ
  pub trusted_proxies : List Prefix
