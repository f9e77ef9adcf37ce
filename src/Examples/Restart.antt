-- ===== src/Examples/Restart.antt =====
-- A restart while a login result is fresh (RunInitialSweep of internal/scheduler/scheduler.go).
use is_ntust_down.Prelude.{ℕ, suc, ◌≡◌, refl, true, false, List, [], ◌∷◌, text_key}
use is_ntust_down.Probe.{up_result}
use is_ntust_down.Store.Schema.{Db, empty_db}
use is_ntust_down.Store.Table.{lookup, upsert}
use is_ntust_down.Store.Live.{record_result, current_states}
use is_ntust_down.Scheduler.Guard.{Job, Readings}
use is_ntust_down.Scheduler.OnStore.{store_repository}
use is_ntust_down.Scheduler.Sweep.{run_initial_sweep, sweep_unguarded}
use is_ntust_down.Scheduler.Pauses.{working}
use is_ntust_down.Scheduler.Restart.{AllFresh, run_initial_sweep-AllFresh, first_phase}
use is_ntust_down.Scheduler.Restart.Gates.{IsOf, first_phase-IsOf}
use is_ntust_down.Examples.Schedule.{utc, guard_config}

-- the world counts the probes
abbrev probe_job : Job ℕ
probe_job = record {
  key = "moodle.sso_page";
  run = λ w. (up_result 1 200, suc w);
  interval = 60;
  guarded = false;
  gate_check_key = "";
}

abbrev login_job : Job ℕ
login_job = record {
  key = "moodle.sso_login";
  run = λ w. (up_result 1 200, suc w);
  interval = 3600;
  guarded = true;
  gate_check_key = "moodle.sso_page";
}

abbrev jobs : List (Job ℕ)
jobs = probe_job ∷ login_job ∷ []

abbrev logged_in : Db
logged_in = record_result "moodle.sso_login" (up_result 1 200) 5 empty_db

abbrev readings : Job ℕ → Readings
readings job = record { guard_at = 9; breaker_at = 9; record_at = 9 }

fresh : AllFresh utc guard_config readings (λ job. 10) jobs jobs logged_in
unfolding record_result current_states lookup upsert
fresh = (λ h. cc, (λ h. (refl, refl), tt))

run_initial_sweep-AllFresh_example :
    run_initial_sweep
      (store_repository utc)
      guard_config
      readings
      (λ job. 10)
      (λ job. false)
      jobs
      (working logged_in)
      0
    ≡ sweep_unguarded (store_repository utc) guard_config readings jobs (working logged_in) 0
run_initial_sweep-AllFresh_example =
    run_initial_sweep-AllFresh utc guard_config readings (λ job. 10) (λ job. false) jobs logged_in 0
      fresh

first_phase-IsOf_example : IsOf utc guard_config readings 0 probe_job (
    lookup "moodle.sso_page"
      (current_states (first_phase utc guard_config readings jobs logged_in 0).0.db))
unfolding sweep_unguarded
first_phase-IsOf_example =
    first_phase-IsOf utc guard_config readings [] (login_job ∷ []) probe_job logged_in 0 refl refl
