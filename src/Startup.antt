-- ===== src/Startup.antt =====
-- cmd/isntustdown/main.go beside the schedule of jobs: what the configuration gives the probes and the
-- scheduler's guard, and the verification of the credentials.
pub mod Verified
pub mod Scheduled
pub mod Life
use is_ntust_down.Prelude.{
  ℕ, suc, String, Bool, true, false, Option, none, some, List, [], ◌∷◌, ◌++◌, map, ◌&&◌, leb,
  length, drop, Text, if◌then◌else◌,
}
use is_ntust_down.Probe.{State, up, same_state, ReasonCode, Result}
use is_ntust_down.Probe.Session.{Remote, Sent}
use is_ntust_down.Probe.Moodle.{MoodleConfig, Codecs, run_sso_login as moodle_login}
use is_ntust_down.Probe.CourseSelection.{CourseSelectionConfig, run_sso_login as course_login}
use is_ntust_down.Scheduler.Guard.{GuardConfig}
use is_ntust_down.Config.Settings.{Config, credentials_present, sso_host}

-- the host of a URL, or the empty text if it does not parse
abbrev host_of : (Text → Option (Text × Text)) → Text → Text
host_of parse_url url = elim (parse_url url) [ none ↦ [] | some (scheme, host) ↦ host ]

abbrev pub guard_config_of : Config → GuardConfig
guard_config_of c = record {
  failure_threshold = c.breaker_failure_threshold;
  backoff_initial = c.breaker_backoff_initial;
  backoff_max = c.breaker_backoff_max;
  max_attempts_per_day = c.max_login_attempts_per_day;
}

module _ (parse_url : Text → Option (Text × Text)) (c : Config) where
  abbrev pub moodle_config_of : MoodleConfig
  moodle_config_of = record {
    base_url = c.moodle_base_url;
    sso_host = sso_host parse_url c;
    username = c.sso_username;
    password = c.sso_password;
  }

  abbrev pub course_selection_config_of : CourseSelectionConfig
  course_selection_config_of = record {
    base_url = c.course_selection_base_url;
    host = host_of parse_url c.course_selection_base_url;
    probe_path = c.course_selection_probe_path;
    sso_host = sso_host parse_url c;
    username = c.sso_username;
    password = c.sso_password;
  }

-- a line of the report
pub record Line : Type 0 where
  pub mark : Bool
  pub key : String
  pub state : State
  pub reason_code : ReasonCode
  pub latency_ms : ℕ

abbrev pub line_of : String → Result → Line
line_of key r = record {
  mark = same_state r.state up;
  key = key;
  state = r.state;
  reason_code = r.reason_code;
  latency_ms = r.latency_ms;
}

abbrev pub exit_of : Result → Result → ℕ
exit_of moodle course = if same_state moodle.state up && same_state course.state up then 0 else 1

pub record Report : Type 0 where
  pub exit : ℕ
  pub lines : List Line

-- `sent` is what has been sent before; both probes run on the same network, one after the other
unfoldable pub run_verify_sso :
    (Text → Option (Text × Text)) → Remote → Codecs → Config → List Sent → Report × List Sent
run_verify_sso parse_url net codec c sent =
    let (moodle, sent₁) = moodle_login net codec (moodle_config_of parse_url c) sent in
    let (course, sent₂) = course_login net (course_selection_config_of parse_url c) sent₁ in
    if credentials_present c
    then (
      record {
        exit = exit_of moodle course;
        lines = line_of "moodle.sso_login" moodle ∷ line_of "courseselection.sso_login" course ∷ [];
      },
      sent₂,
    )
    else (record { exit = 2; lines = [] }, sent)

-- keeps the first three characters of a user name that has more
unfoldable pub mask_username : Text → Text
mask_username (a ∷ b ∷ c ∷ d ∷ rest) = a ∷ b ∷ c ∷ map (λ _. b'*') (d ∷ rest)
mask_username short = map (λ _. b'*') short
