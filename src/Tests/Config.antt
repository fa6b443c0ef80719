-- ===== src/Tests/Config.antt =====
-- `Load` (internal/config/config.go) at concrete environments.
use voting_service.Base.{
  String, ◌≡◌, refl, Option, none, List, [], ◌∷◌, if◌then◌else◌, str_eq, contains, trim_space,
  parse_int, equal_fold, to_lower, split_at,
}
use voting_service.Base.Int.{ℤ}
use voting_service.Config.Loader.{
  in_range, reject, fail_if, to_int32, keep_parts, any_fold, required_string, optional_string,
  secret, integer, duration, boolean, string_list, read_prefixes, prefix_list, one_of,
}
use voting_service.Config.Load.{
  validate_production, check_settings, read_settings, examine, loaded, finish_load, load,
}
use voting_service.Config.Sections.{
  level_of, same_site_of, same_site_name, parse_log_level, parse_same_site, load_http,
  load_postgres, load_redis, load_vote, load_cache, load_sync, load_polls, load_cookie,
}
use voting_service.Config.Settings.{Settings}
use voting_service.Config.Sound.{HasLimits, IsConsistent, load-IsSound}

abbrev environ : List (String × String) → String → String
environ [] key = ""
environ ((name, value) ∷ pairs) key = if str_eq name key then value else environ pairs key

-- What a deployment must set, and some that it may.
abbrev deployed : String → String
deployed = environ (
    ("DATABASE_URL", "postgres://db/votes")
    ∷ ("ADMIN_TOKEN", "0123456789abcdef0123456789abcdef")
    ∷ ("REDIS_ADDRESSES", "a:6379, b:6379,")
    ∷ ("VOTE_SHARDS", "32")
    ∷ ("APP_ENV", "Production")
    ∷ [])

abbrev no_duration : String → Option ℤ
no_duration raw = none

abbrev no_prefix : String → Option String
no_prefix raw = none

abbrev config : Settings String
config = (examine deployed no_duration no_prefix).0

loads : load deployed no_duration no_prefix ≡ loaded config
unfolding load examine str_eq contains trim_space parse_int equal_fold to_lower split_at
    read_settings check_settings finish_load in_range reject fail_if to_int32 keep_parts any_fold
    required_string optional_string secret integer duration boolean string_list prefix_list
    read_prefixes one_of level_of same_site_of same_site_name validate_production parse_log_level
    parse_same_site load_http load_postgres load_redis load_vote load_cache load_sync load_polls
    load_cookie
loads = refl

load-IsSound_example : HasLimits config × IsConsistent config
load-IsSound_example = load-IsSound deployed no_duration no_prefix config loads
