-- ===== src/Config/Settings.antt =====
-- `Config` of internal/config/config.go, what is derived from it, and the checks that Load makes of it
-- once the variables are read. Durations are nanoseconds.
pub mod Accepted
use is_ntust_down.Prelude.{
  ℕ, ◌/◌, min, Bool, not, ◌&&◌, ◌||◌, Option, none, some, List, [], ◌∷◌, ◌++◌, is_empty, ℤ, pos,
  ltb_ℤ, leb_ℤ, Text, if◌then◌else◌,
}

-- net.IPNet
pub record IpNet : Type 0 where
  pub ip : Text
  pub mask : Text

pub record Config : Type 0 where
  pub app_env : Text
  pub http_addr : Text
  pub log_level : Text
  pub database_url : Text
  pub display_timezone : Text
  pub raw_retention_days : ℤ
  pub daily_retention_days : ℤ
  pub rollup_interval : ℕ
  pub history_days : ℤ
  pub history_hours : ℤ
  pub hourly_retention_days : ℤ
  pub probe_timeout : ℕ
  pub moodle_user_agent : Text
  pub sso_base_url : Text
  pub sso_enabled : Bool
  pub sso_username : Text
  pub sso_password : Text
  pub breaker_failure_threshold : ℤ
  pub breaker_backoff_initial : ℕ
  pub breaker_backoff_max : ℕ
  pub max_login_attempts_per_day : ℤ
  pub moodle_base_url : Text
  pub moodle_site_interval : ℕ
  pub moodle_sso_structural_interval : ℕ
  pub moodle_sso_login_interval : ℕ
  pub course_selection_base_url : Text
  pub course_selection_probe_path : Text
  pub course_selection_site_interval : ℕ
  pub course_selection_sso_structural_interval : ℕ
  pub course_selection_sso_login_interval : ℕ
  pub mail_base_url : Text
  pub mail_login_path : Text
  pub mail_site_interval : ℕ
  pub mail_login_page_interval : ℕ
  pub mail_smtp_enabled : Bool
  pub mail_smtp_hosts : List Text
  pub mail_smtp_interval : ℕ
  pub query_course_semesters_url : Text
  pub query_course_interval : ℕ
  pub tigerduck_base_url : Text
  pub tigerduck_v3_probe_path : Text
  pub tigerduck_interval : ℕ
  pub api_rate_limit_per_minute : ℤ
  pub api_rate_limit_burst : ℤ
  pub api_cache_max_age : ℕ
  pub trusted_proxy_cidrs : List IpNet

unfoldable pub credentials_present : Config → Bool
credentials_present c =
    c.sso_enabled && not (is_empty c.sso_username) && not (is_empty c.sso_password)

-- the host of the single sign-on, by `url.Parse`
abbrev pub sso_host : (Text → Option (Text × Text)) → Config → Text
sso_host parse_url c = elim (parse_url c.sso_base_url) [ none ↦ [] | some (scheme, host) ↦ host ]

pub data Problem : Type 0 where
  -- what the readers report of a variable
  bad_url bad_integer bad_duration not_positive bad_boolean : Text → Problem
  -- a variable, and the part of it that is no CIDR
  bad_cidr : Text → Text → Problem
  bad_timezone bad_history_days bad_history_hours bad_hourly_retention ceiling_too_low : Problem

abbrev pub problem_if : Bool → Problem → List Problem
problem_if b p = if b then p ∷ [] else []

abbrev pub day : ℕ
day = 86400000000000

abbrev pub shortest_login_interval : Config → ℕ
shortest_login_interval c = min c.moodle_sso_login_interval c.course_selection_sso_login_interval

-- The login intervals are positive: `dur` refuses any other.
abbrev pub logins_per_day : Config → ℕ
logins_per_day c = day / shortest_login_interval c

-- the checks of the values: `timezone_known` says whether time.LoadLocation finds a name
unfoldable pub value_problems : (Text → Bool) → Config → List Problem
unfolding credentials_present
value_problems timezone_known c =
    problem_if (not (timezone_known c.display_timezone)) bad_timezone
    ++ (problem_if (ltb_ℤ c.history_days (pos 1) || ltb_ℤ (pos 400) c.history_days) bad_history_days
        ++ (problem_if (ltb_ℤ c.history_hours (pos 1) || ltb_ℤ (pos 168) c.history_hours)
              bad_history_hours
            ++ (problem_if (ltb_ℤ c.hourly_retention_days (pos 1)) bad_hourly_retention
                ++ problem_if
                    (credentials_present c
                      && ltb_ℤ (pos 0) c.max_login_attempts_per_day
                      && leb_ℤ c.max_login_attempts_per_day (pos (logins_per_day c)))
                    ceiling_too_low)))
