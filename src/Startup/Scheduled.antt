-- ===== src/Startup/Scheduled.antt =====
-- What run of cmd/isntustdown/main.go starts with a configuration: the scheduler with the schedule of
-- buildJobs, its guard and its maintenance.
use is_ntust_down.Prelude.{
  ℕ, suc, ◌+◌, ◌-◌, ◌≤◌, ◌≡◌, refl, ap, String, Bool, true, not, ◌||◌, ◌&&◌, List, [], ◌∷◌, pos,
  eq_iff, str_eq, arith, Bool-cases, inl, inr,
}
use mathlib.Core.List.{eq-or-mem_of_mem-cons, not-mem-nil}
use mathlib.Core.Bool.{Bool-set}
use mathlib.Core.Logic.Or
use is_ntust_down.Store.Schema.{Zone, empty_db}
use is_ntust_down.Scheduler.Guard.{Job, GuardConfig, day}
use is_ntust_down.Scheduler.Sweep.{MaintenanceConfig}
use is_ntust_down.Scheduler.Ceiling.{attempts_of_day}
use is_ntust_down.Scheduler.Days.{Moment}
use is_ntust_down.Scheduler.Running.{Reach, here, next}
use is_ntust_down.Scheduler.Running.Failures.{failures}
use is_ntust_down.Scheduler.Running.Logins.{AllCounted}
use is_ntust_down.Scheduler.Running.Logins.Lives.{Reach-Accounted}
use is_ntust_down.Store.Attempts.{count_attempts_since_antitone}
use is_ntust_down.Scheduler.Running.Others.{OnlyGuarded}
use is_ntust_down.Scheduler.Running.Attempts.{Reach-Within}
use is_ntust_down.Config.Settings.{Config, credentials_present}
use is_ntust_down.Config.Jobs.{Probes, build_jobs}
use is_ntust_down.Startup.{guard_config_of}

-- what RunMaintenance is given, where no retention is negative
abbrev pub IsMaintenance : Config → MaintenanceConfig → Type 0
IsMaintenance c m =
    (pos m.raw_retention_days ≡ c.raw_retention_days)
    × (pos m.daily_retention_days ≡ c.daily_retention_days)
    × (pos m.hourly_retention_days ≡ c.hourly_retention_days)
    × (pos m.history_hours ≡ c.history_hours)

abbrev guards : {W : Type 0} → String → List (Job W) → Bool
guards key [] = true
guards key (job ∷ jobs) = (not (str_eq job.key key) || job.guarded) && guards key jobs

guards-OnlyGuarded :
    {W : Type 0} (key : String) (jobs : List (Job W))
    → guards key jobs ≡ true
    → OnlyGuarded key jobs
guards-OnlyGuarded key [] h job m e = absurd (not-mem-nil m)
guards-OnlyGuarded key (first ∷ jobs) h job m e =
    Or.elim (Bool-set job.guarded true) (eq-or-mem_of_mem-cons m)
      (λ same. rw same (ground (arith, h, eq_iff first.key key, ap (λ (j : Job _). j.key) same, e)))
      (λ later. guards-OnlyGuarded key jobs (ground (arith, h)) job later e)

guards-build_jobs :
    {W : Type 0} (probes : Probes W) (c : Config)
    → credentials_present c ≡ true
    → (guards "moodle.sso_login" (build_jobs probes c) ≡ true)
      × (guards "courseselection.sso_login" (build_jobs probes c) ≡ true)
unfolding build_jobs
guards-build_jobs probes c h = elim (Bool-cases c.mail_smtp_enabled) [
  | inl m ↦ rw (h, m) (refl, refl)
  | inr m ↦ rw (h, m) (refl, refl)
]

Reach-trans :
    {W : Type 0} (zone : Zone) (g : GuardConfig) (u : MaintenanceConfig) (jobs : List (Job W))
    {a m n : Moment W}
    → Reach zone g u jobs a m
    → Reach zone g u jobs m n
    → Reach zone g u jobs a n
Reach-trans zone g u jobs r here = r
Reach-trans zone g u jobs r (next t s) = next (Reach-trans zone g u jobs r t) s

-- Between two states of the process, the attempts of the last 24 hours that are recorded stay within
-- a ceiling, and so do the logins made, but for one for each call that failed.
abbrev pub IsLimited : {W : Type 0} → String → (W → ℕ) → ℕ → Moment W → Moment W → Type 0
IsLimited key logins limit m n =
    (attempts_of_day key n.now n.disk.db ≤ limit)
    × (logins n.world + failures n.disk ≤ logins m.world + failures m.disk + limit)

module _ {W : Type 0} (zone : Zone) (probes : Probes W) (c : Config) (u : MaintenanceConfig) where
  attempts-IsLimited :
      (key : String) (logins : W → ℕ) (limit : ℕ) {a m n : Moment W}
      → guards key (build_jobs probes c) ≡ true
      → c.max_login_attempts_per_day ≡ pos (suc limit)
      → ((now : ℕ) → zone.days_back u.raw_retention_days now ≤ now - day)
      → AllCounted key logins (build_jobs probes c)
      → a.disk.db ≡ empty_db
      → Reach zone (guard_config_of c) u (build_jobs probes c) a m
      → Reach zone (guard_config_of c) u (build_jobs probes c) m n
      → n.now ≤ m.now + day
      → IsLimited key logins (suc limit) m n
  attempts-IsLimited key logins limit {m} {n} checked q keep counted e before reach h =
      let g = guard_config_of c in
      let jobs = build_jobs probes c in
      let only = guards-OnlyGuarded key jobs checked in
      let within =
        Reach-Within zone g key limit u jobs q only keep e
          (Reach-trans zone g u jobs before reach) in
      (
        within,
        omega (
          arith,
          within,
          Reach-Accounted zone g key logins m.now u jobs counted only keep (omega arith) h reach,
          count_attempts_since_antitone key (n.now - day) m.now n.disk.db (omega (arith, h)),
        ),
      )

  -- With credentials and a positive daily ceiling, take any two states at most 24 hours apart that the
  -- process reaches from an empty database, by any number of starts of what buildJobs schedules and any
  -- ticks of its jobs and of maintenance, one cycle after the other. Whatever the probes find and
  -- whatever database calls fail, the later database holds at most the ceiling of attempts of either
  -- login check in its last 24 hours, and the logins of either check really made between the two
  -- states are at most the ceiling, and one more for each database call that failed between them.
  -- A run of a login check makes one login at most, and none if it finds nothing out; no other check
  -- makes its logins. Maintenance has the configuration's retentions, which are not negative, and
  -- prunes no raw result of the last 24 hours.
  pub build_jobs-attempts :
      (moodle course : W → ℕ) (limit : ℕ) {a m n : Moment W}
      → credentials_present c ≡ true
      → c.max_login_attempts_per_day ≡ pos (suc limit)
      → IsMaintenance c u
      → ((now : ℕ) → zone.days_back u.raw_retention_days now ≤ now - day)
      → AllCounted "moodle.sso_login" moodle (build_jobs probes c)
      → AllCounted "courseselection.sso_login" course (build_jobs probes c)
      → a.disk.db ≡ empty_db
      → Reach zone (guard_config_of c) u (build_jobs probes c) a m
      → Reach zone (guard_config_of c) u (build_jobs probes c) m n
      → n.now ≤ m.now + day
      → IsLimited "moodle.sso_login" moodle (suc limit) m n
        × IsLimited "courseselection.sso_login" course (suc limit) m n
  build_jobs-attempts moodle course limit p q im keep by_moodle by_course e before reach h =
      let (mem_moodle, mem_course) = guards-build_jobs probes c p in
      (
        attempts-IsLimited "moodle.sso_login" moodle limit mem_moodle q keep by_moodle e before
            reach h,
        attempts-IsLimited "courseselection.sso_login" course limit mem_course q keep by_course e
            before reach h,
      )
