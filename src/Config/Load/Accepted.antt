-- ===== src/Config/Load/Accepted.antt =====
-- What Load of internal/config/config.go promises of the configuration that it returns.
use is_ntust_down.Prelude.{
  ℕ, ◌<◌, ◌≡◌, Bool, true, List, [], ◌∷◌, pos, ◌≤ℤ◌, ◌<ℤ◌, Text, arith, Option-cases, inl, inr,
}
use is_ntust_down.Config.DotEnv.{Environment, DotEnvFile, load_dot_env}
use is_ntust_down.Config.Reader.{Parsers}
use is_ntust_down.Config.Reader.Positive.{dur_pos}
use is_ntust_down.Config.Settings.{
  Config, Problem, credentials_present, logins_per_day, value_problems,
}
use is_ntust_down.Config.Settings.Accepted.{value_problems_bounds, value_problems-ceiling}
use is_ntust_down.Config.Load.{read_config, config, accept, load}

-- every duration of a configuration
abbrev pub durations : Config → List ℕ
durations c =
    c.rollup_interval ∷ c.probe_timeout ∷ c.breaker_backoff_initial ∷ c.breaker_backoff_max
    ∷ c.moodle_site_interval ∷ c.moodle_sso_structural_interval ∷ c.moodle_sso_login_interval
    ∷ c.course_selection_site_interval ∷ c.course_selection_sso_structural_interval
    ∷ c.course_selection_sso_login_interval ∷ c.mail_site_interval ∷ c.mail_login_page_interval
    ∷ c.mail_smtp_interval ∷ c.query_course_interval ∷ c.tigerduck_interval ∷ c.api_cache_max_age
    ∷ []

abbrev pub AllPositive : List ℕ → Type 0
AllPositive [] = Unit
AllPositive (n ∷ ns) = (0 < n) × AllPositive ns

-- the history in range, and hourly buckets kept for a day at least
abbrev pub IsBounded : Config → Type 0
IsBounded c =
    (pos 1 ≤ℤ c.history_days)
    × (c.history_days ≤ℤ pos 400)
    × (pos 1 ≤ℤ c.history_hours)
    × (c.history_hours ≤ℤ pos 168)
    × (pos 1 ≤ℤ c.hourly_retention_days)

read_config-AllPositive :
    (p : Parsers) (env : Environment) → AllPositive (durations (read_config p env).0)
unfolding read_config
read_config-AllPositive p env = omega (arith, dur_pos)

accept-config :
    (timezone_known : Text → Bool) (c c' : Config) (problems : List Problem)
    → accept timezone_known c problems ≡ config c'
    → (value_problems timezone_known c ≡ []) × (c' ≡ c)
unfolding accept
accept-config timezone_known c c' [] h = ground arith
accept-config timezone_known c c' (e ∷ problems) h = ground arith

-- what is accepted has been read from some environment
load-config :
    (p : Parsers) (file : DotEnvFile) (env : Environment) (c : Config)
    → load p file env ≡ config c
    → (env' : Environment) × (c ≡ (read_config p env').0)
      × (value_problems p.timezone_known (read_config p env').0 ≡ [])
unfolding load
load-config p file env c h = elim (Option-cases (load_dot_env file env)) [
  | inl failed ↦ absurd (ground arith)
  | inr (env', loaded) ↦
      let (clean, e) =
        accept-config p.timezone_known (read_config p env').0 c (read_config p env').1
          (ground arith) in
      (env', e, clean)
]

-- A configuration that Load returns has only positive durations, its history is between 1 and 400 days
-- and between 1 and 168 hours long, and it keeps hourly buckets for a day at least.
pub load_bounds :
    (p : Parsers) (file : DotEnvFile) (env : Environment) (c : Config)
    → load p file env ≡ config c
    → AllPositive (durations c) × IsBounded c
load_bounds p file env c h =
    let (env', e, clean) = load-config p file env c h in
    rw e (
      read_config-AllPositive p env',
      value_problems_bounds p.timezone_known (read_config p env').0 clean,
    )

-- If a configuration that Load returns has credentials and a positive ceiling on a day's logins, the
-- ceiling is above the number of times that the shorter login interval goes into a day.
pub load-ceiling :
    (p : Parsers) (file : DotEnvFile) (env : Environment) (c : Config)
    → load p file env ≡ config c
    → credentials_present c ≡ true
    → pos 0 <ℤ c.max_login_attempts_per_day
    → pos (logins_per_day c) <ℤ c.max_login_attempts_per_day
load-ceiling p file env c h l m =
    let (env', e, clean) = load-config p file env c h in
    value_problems-ceiling p.timezone_known c (rw e clean) l m
