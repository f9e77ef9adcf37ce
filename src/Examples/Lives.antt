-- ===== src/Examples/Lives.antt =====
-- Lives of the process (cmd/isntustdown/main.go) on a database that is empty at first.
use is_ntust_down.Prelude.{
  ℕ, ◌+◌, String, str_eq, if◌then◌else◌, ◌≡◌, refl, Bool, true, false, List, [], ◌∷◌, count_by,
  same_text, arith,
}
use mathlib.Core.List.{eq-or-mem_of_mem-cons, not-mem-nil}
use mathlib.Core.List.Perm
use mathlib.Core.Logic.Or
use native.Mathlib.Bridge.{le_prop}
use is_ntust_down.Store.Table.{lookup, upsert}
use is_ntust_down.Store.Migrate.{migrate, migrate_names, apply_all}
use is_ntust_down.Store.Migrate.Settled.{Extends}
use is_ntust_down.Store.Migrate.Again.{migrate-retry}
use is_ntust_down.Store.Migrate.Files.{migrations, schema}
use is_ntust_down.Scheduler.OnStore.{Disk, store_repository}
use is_ntust_down.Scheduler.Guard.{Job, Readings}
use is_ntust_down.Scheduler.Sweep.{MaintenanceConfig, maintain}
use is_ntust_down.Scheduler.Days.{Moment}
use is_ntust_down.Scheduler.Running.Logins.{IsCounted, AllCounted}
use is_ntust_down.Probe.{up_result}
use is_ntust_down.Store.Schema.{empty_db}
use is_ntust_down.Scheduler.Running.{Step, Reach, swept}
use is_ntust_down.Config.Settings.{credentials_present}
use is_ntust_down.Config.Load.{read_config}
use is_ntust_down.Config.Reader.{str, int_val, bool_val, parse_bool}
use is_ntust_down.Config.Jobs.{Probes, build_jobs}
use is_ntust_down.Startup.{guard_config_of}
use is_ntust_down.Startup.Scheduled.{IsMaintenance, IsLimited, build_jobs-attempts}
use is_ntust_down.Startup.Life.{Outside, Ending, open_store, run}
use is_ntust_down.Startup.Life.Prepared.{is_open, is_closed, connected, run-prepared}
use is_ntust_down.Examples.Schedule.{utc, disk_of}
use is_ntust_down.Examples.Settings.{settings, all_up}

-- the first boot fails at its second file, the second one at its first file
abbrev broken_boots : List (List Bool)
broken_boots = (false ∷ true ∷ []) ∷ (true ∷ []) ∷ []

migrate-retry_example :
    let after =
      (migrate migrations record { catalogue = []; faults = false ∷ true ∷ [] }).1.catalogue in
    Extends [] after
    × (migrate migrations record { catalogue = after; faults = [] }
        ≡ migrate migrations record { catalogue = []; faults = [] })
migrate-retry_example = migrate-retry migrations [] (false ∷ true ∷ [])

abbrev outside : Outside
outside = record {
  zone_known = λ s. true;
  pool_made = λ s. true;
  ping_answered = true;
  assets_parsed = true;
  ending = Ending.signalled true;
}

run-prepared_example :
    ((run outside all_up settings (connected broken_boots [])).1.catalogue ≡ schema)
    × (count_by is_open (run outside all_up settings (connected broken_boots [])).2 ≡ 1)
    × (count_by is_closed (run outside all_up settings (connected broken_boots [])).2 ≡ 1)
unfolding run open_store migrate migrate_names apply_all lookup upsert same_text credentials_present
    read_config str bool_val
run-prepared_example = run-prepared outside all_up settings broken_boots [] refl

abbrev upkeep_config : MaintenanceConfig
upkeep_config = record {
  raw_retention_days = 14;
  daily_retention_days = 400;
  hourly_retention_days = 30;
  history_hours = 24;
}

-- the world counts the logins to Moodle and those to course selection
abbrev counting : Probes (ℕ × ℕ)
counting = record {
  run = λ key w. (up_result 1 200, w);
  log_in = λ key name password w.
      (up_result 1 200, if str_eq key "moodle.sso_login" then (1 + w.0, w.1) else (w.0, 1 + w.1));
}

abbrev EachCounted : {W : Type 0} → String → (W → ℕ) → List (Job W) → Type 0
EachCounted key logins [] = Unit
EachCounted key logins (job ∷ jobs) = IsCounted key logins job × EachCounted key logins jobs

IsCounted-prop :
    {W : Type 0} (key : String) (logins : W → ℕ) (job : Job W) → IsProp (IsCounted key logins job)
IsCounted-prop key logins job = hlevel (le_prop)

each-AllCounted :
    {W : Type 0} (key : String) (logins : W → ℕ) (jobs : List (Job W))
    → EachCounted key logins jobs
    → AllCounted key logins jobs
each-AllCounted key logins [] c job m = absurd (not-mem-nil m)
each-AllCounted key logins (first ∷ jobs) (c, later) job m =
    Or.elim (IsCounted-prop key logins job) (eq-or-mem_of_mem-cons m) (λ same. rw same c)
      (λ i. each-AllCounted key logins jobs later job i)

moodle-AllCounted : AllCounted "moodle.sso_login" (λ w. w.0) (build_jobs counting settings)
unfolding build_jobs credentials_present read_config str int_val bool_val lookup same_text
    parse_bool
moodle-AllCounted =
    each-AllCounted "moodle.sso_login" (λ w. w.0) (build_jobs counting settings)
      (
        λ w. omega arith,
        (
          λ w. omega arith,
          (
            λ w. omega arith,
            (
              λ w. omega arith,
              (
                λ w. omega arith,
                (
                  λ w. omega arith,
                  (
                    λ w. omega arith,
                    (λ w. omega arith, (λ w. omega arith, (λ w. omega arith, tt))),
                  ),
                ),
              ),
            ),
          ),
        ),
      )

course-AllCounted : AllCounted "courseselection.sso_login" (λ w. w.1) (build_jobs counting settings)
unfolding build_jobs credentials_present read_config str int_val bool_val lookup same_text
    parse_bool
course-AllCounted =
    each-AllCounted "courseselection.sso_login" (λ w. w.1) (build_jobs counting settings)
      (
        λ w. omega arith,
        (
          λ w. omega arith,
          (
            λ w. omega arith,
            (
              λ w. omega arith,
              (
                λ w. omega arith,
                (
                  λ w. omega arith,
                  (
                    λ w. omega arith,
                    (λ w. omega arith, (λ w. omega arith, (λ w. omega arith, tt))),
                  ),
                ),
              ),
            ),
          ),
        ),
      )

abbrev at_ten : Job (ℕ × ℕ) → Readings
at_ten job = record { guard_at = 10; breaker_at = 10; record_at = 10 }

abbrev created : Moment (ℕ × ℕ)
created = record { now = 0; disk = disk_of empty_db; world = (0, 0) }

abbrev first_sweep : Disk × (ℕ × ℕ)
first_sweep =
    swept utc (guard_config_of settings) upkeep_config (build_jobs counting settings)
      (build_jobs counting settings) at_ten (λ job. 10) (λ job. false) created

abbrev booted : Moment (ℕ × ℕ)
booted = record { now = 10; disk = first_sweep.0; world = first_sweep.1 }

abbrev maintained : Moment (ℕ × ℕ)
maintained = record {
  now = 20;
  disk = (maintain (store_repository utc) upkeep_config 20 0 0 booted.disk).1;
  world = booted.world;
}

one_life :
    Reach utc
      (guard_config_of settings)
      upkeep_config
      (build_jobs counting settings)
      created
      maintained
unfolding build_jobs credentials_present read_config str int_val bool_val lookup same_text
    parse_bool
one_life =
    Reach.next {n = booted} {o = maintained}
      (Reach.next {n = created} {o = booted} Reach.here (
        Step.boot (build_jobs counting settings) at_ten (λ job. 10) (λ job. false)
          (Perm.refl (build_jobs counting settings)) (omega arith) refl))
      (Step.upkeep 0 0 (omega arith) refl refl)

settings-IsMaintenance : IsMaintenance settings upkeep_config
unfolding read_config int_val lookup same_text
settings-IsMaintenance = (refl, refl, refl, refl)

build_jobs-attempts_example :
    IsLimited "moodle.sso_login" (λ (w : ℕ × ℕ). w.0) 30 created maintained
    × IsLimited "courseselection.sso_login" (λ (w : ℕ × ℕ). w.1) 30 created maintained
unfolding credentials_present read_config str int_val bool_val lookup same_text parse_bool
build_jobs-attempts_example =
    build_jobs-attempts utc counting settings upkeep_config (λ w. w.0) (λ w. w.1) 29 refl refl
      settings-IsMaintenance (λ now. omega arith) moodle-AllCounted course-AllCounted refl
      Reach.here one_life (omega arith)
