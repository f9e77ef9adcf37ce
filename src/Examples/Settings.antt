-- ===== src/Examples/Settings.antt =====
-- Loading a configuration, and the schedule that it asks for (internal/config, cmd/isntustdown/main.go).
use is_ntust_down.Prelude.{
  ℕ, suc, ◌≡◌, refl, true, false, none, some, [], ◌∷◌, Text, codes, pos, ◌<ℤ◌, arith, cut,
  trim_prefix, trim_space, trim_left, is_space, has_prefix, same_text, split, trim_right_slash,
  codes_key,
}
use is_ntust_down.Probe.{up_result}
use is_ntust_down.Store.Table.{lookup, upsert}
use is_ntust_down.Config.DotEnv.{
  Environment, DotEnvFile, scanned, parse_line, set_missing, apply_line, apply_lines, load_dot_env,
}
use is_ntust_down.Config.DotEnv.Precedence.{assigned, lookup-load_dot_env}
use is_ntust_down.Config.DotEnv.RoundTrip.{quoted_line, parse_line-quoted_line}
use is_ntust_down.Config.Reader.{
  Parsers, str, url, int_val, dur, bool_val, parse_bool, list, trimmed_parts, cidrs,
}
use is_ntust_down.Config.Settings.{Config, credentials_present, logins_per_day, value_problems}
use is_ntust_down.Config.Load.{read_config, config, accept, load}
use is_ntust_down.Config.Load.Accepted.{
  load-ceiling, load_bounds, durations, AllPositive, IsBounded,
}
use is_ntust_down.Config.Jobs.{Probes}

-- every URL is absolute, and no variable but the credentials is set
abbrev pub parsers : Parsers
parsers = record {
  parse_url = λ s. some (codes "https", codes "host");
  atoi = λ s. none;
  parse_duration = λ s. none;
  parse_cidr = λ s. none;
  timezone_known = λ s. true;
}

abbrev user_line : Text
user_line = quoted_line (codes "NTUST_SSO_USERNAME") (codes "b11")

abbrev file : DotEnvFile
file =
    scanned (user_line ∷ codes "# a comment" ∷ codes "export NTUST_SSO_PASSWORD = 'p w'" ∷ []) false

abbrev set : Environment
set = (codes "NTUST_SSO_USERNAME", codes "b11") ∷ (codes "NTUST_SSO_PASSWORD", codes "p w") ∷ []

file_loads : load_dot_env file [] ≡ some set
unfolding load_dot_env apply_lines apply_line parse_line set_missing lookup upsert cut trim_prefix
    trim_space trim_left is_space has_prefix same_text
file_loads = refl

lookup-load_dot_env_example : lookup (codes "NTUST_SSO_USERNAME") set ≡ some (codes "b11")
unfolding assigned parse_line lookup cut trim_prefix trim_space trim_left is_space has_prefix
    same_text
lookup-load_dot_env_example =
    lookup-load_dot_env
      (user_line ∷ codes "# a comment" ∷ codes "export NTUST_SSO_PASSWORD = 'p w'" ∷ []) false []
      set (codes "NTUST_SSO_USERNAME") file_loads

parse_line-quoted_line_example :
    parse_line (quoted_line (codes "KEY") (codes " a=b #c ")) ≡ some (codes "KEY", codes " a=b #c ")
parse_line-quoted_line_example = parse_line-quoted_line b'K' (codes "EY") (codes " a=b #c ") refl

abbrev pub settings : Config
settings = (read_config parsers set).0

accepted : load parsers file [] ≡ config settings
unfolding load accept read_config load_dot_env apply_lines apply_line parse_line set_missing lookup
    upsert cut trim_prefix trim_space trim_left is_space has_prefix same_text str url int_val dur
    bool_val parse_bool list trimmed_parts cidrs split trim_right_slash value_problems
    credentials_present
accepted = refl

load_bounds_example : AllPositive (durations settings) × IsBounded settings
load_bounds_example = load_bounds parsers file [] settings accepted

load-ceiling_example : pos (logins_per_day settings) <ℤ settings.max_login_attempts_per_day
unfolding credentials_present read_config str int_val bool_val lookup same_text parse_bool
load-ceiling_example = load-ceiling parsers file [] settings accepted refl (omega arith)

abbrev pub all_up : Probes ℕ
all_up = record {
  run = λ key w. (up_result 1 200, w);
  log_in = λ key user pass w. (up_result 1 200, suc w);
}
