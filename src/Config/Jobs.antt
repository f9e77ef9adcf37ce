-- ===== src/Config/Jobs.antt =====
-- buildJobs of cmd/isntustdown/main.go: the schedule that a configuration asks for.
pub mod Intervals
use is_ntust_down.Prelude.{
  Text, ℕ, ◌+◌, ◌≡◌, refl, String, Bool, true, false, List, [], ◌∷◌, ◌++◌, map, str_eq,
  if◌then◌else◌, arith, Bool-cases, ◌⊎◌, inl, inr,
}
use is_ntust_down.Probe.{Result}
use is_ntust_down.Scheduler.Guard.{Job}
use is_ntust_down.Config.Registry.{RegistryOptions, all_check_keys, registry, keys_of}
use is_ntust_down.Config.Settings.{Config, credentials_present}

-- The probes' runs: by the key, and those that log in with a user name and a password.
pub record Probes (W : Type 0) : Type 0 where
  pub run : String → W → Result × W
  pub log_in : String → Text → Text → W → Result × W

abbrev pub registry_options : Config → RegistryOptions
registry_options c = record { include_mail_smtp = c.mail_smtp_enabled }

-- the user name and the password that the login probes are given
unfoldable pub login_credentials : Config → Text × Text
login_credentials c = if credentials_present c then (c.sso_username, c.sso_password) else ([], [])

module _ {W : Type 0} (probes : Probes W) (c : Config) where
  abbrev pub plain_job : String → ℕ → Job W
  plain_job key interval = record {
    key = key;
    run = probes.run key;
    interval = interval;
    guarded = false;
    gate_check_key = "";
  }

  abbrev pub login_job : String → ℕ → Bool → String → Job W
  login_job key interval guarded gate = record {
    key = key;
    run = probes.log_in key ((login_credentials c).0) ((login_credentials c).1);
    interval = interval;
    guarded = guarded;
    gate_check_key = gate;
  }

  unfoldable pub build_jobs : List (Job W)
  build_jobs =
      plain_job "moodle.site" c.moodle_site_interval
      ∷ plain_job "moodle.sso_page" c.moodle_sso_structural_interval
      ∷ plain_job "courseselection.site" c.course_selection_site_interval
      ∷ plain_job "courseselection.sso_page" c.course_selection_sso_structural_interval
      ∷ plain_job "mail.site" c.mail_site_interval
      ∷ plain_job "mail.login_page" c.mail_login_page_interval
      ∷ plain_job "querycourse.api" c.query_course_interval
      ∷ plain_job "tigerduck.v3" c.tigerduck_interval
      ∷ ((if c.mail_smtp_enabled then plain_job "mail.smtp" c.mail_smtp_interval ∷ [] else [])
          ++ (if credentials_present c
              then login_job "moodle.sso_login" c.moodle_sso_login_interval true "moodle.sso_page"
                ∷ login_job "courseselection.sso_login" c.course_selection_sso_login_interval true
                    "courseselection.sso_page"
                ∷ []
              else login_job "moodle.sso_login" c.moodle_sso_login_interval false ""
                ∷ login_job "courseselection.sso_login" c.course_selection_sso_login_interval false
                    ""
                ∷ []))

abbrev keys_of_jobs : {W : Type 0} → List (Job W) → List String
keys_of_jobs jobs = map (λ j. j.key) jobs

unfoldable occurrences : String → List String → ℕ
occurrences key [] = 0
occurrences key (k ∷ ks) = (if str_eq k key then 1 else 0) + occurrences key ks

-- The schedule has a job for each check of the registry, as often as the registry names it, and no
-- other: every key occurs as often among the jobs as among the checks.
build_jobs-registry :
    {W : Type 0}
    → (probes : Probes W) → (c : Config) → (key : String)
    → occurrences key (keys_of_jobs (build_jobs probes c))
      ≡ occurrences key (all_check_keys (registry_options c))
unfolding build_jobs all_check_keys registry keys_of occurrences credentials_present
build_jobs-registry probes c key = elim (Bool-cases c.mail_smtp_enabled) [
  | inl m ↦ elim (Bool-cases (credentials_present c)) [
    | inl l ↦ rw (m, l) (omega arith)
    | inr l ↦ rw (m, l) (omega arith)
  ]
  | inr m ↦ elim (Bool-cases (credentials_present c)) [
    | inl l ↦ rw (m, l) (omega arith)
    | inr l ↦ rw (m, l) (omega arith)
  ]
]

abbrev guarded_gates : {W : Type 0} → List (Job W) → List (String × String)
guarded_gates [] = []
guarded_gates (j ∷ js) =
    if j.guarded then (j.key, j.gate_check_key) ∷ guarded_gates js else guarded_gates js

-- With credentials, the guarded jobs are the two logins, each with the check of its own login page as
-- its gate. Without, no job is guarded and the login probes are given no credentials.
build_jobs-guarded :
    {W : Type 0}
    → (probes : Probes W) → (c : Config)
    → ((credentials_present c ≡ true)
        × (guarded_gates (build_jobs probes c)
            ≡ ("moodle.sso_login", "moodle.sso_page")
              ∷ ("courseselection.sso_login", "courseselection.sso_page")
              ∷ [])
        × (login_credentials c ≡ (c.sso_username, c.sso_password)))
      ⊎ ((credentials_present c ≡ false)
          × (guarded_gates (build_jobs probes c) ≡ [])
          × (login_credentials c ≡ ([], [])))
unfolding build_jobs login_credentials credentials_present
build_jobs-guarded probes c = elim (Bool-cases c.mail_smtp_enabled) [
  | inl m ↦ elim (Bool-cases (credentials_present c)) [
    | inl l ↦ inl (rw (m, l) (refl, refl, refl))
    | inr l ↦ inr (rw (m, l) (refl, refl, refl))
  ]
  | inr m ↦ elim (Bool-cases (credentials_present c)) [
    | inl l ↦ inl (rw (m, l) (refl, refl, refl))
    | inr l ↦ inr (rw (m, l) (refl, refl, refl))
  ]
]
