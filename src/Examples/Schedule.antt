-- ===== src/Examples/Schedule.antt =====
-- Runs of the scheduler (internal/scheduler) on small databases.
use is_ntust_down.Prelude.{
  ℕ, suc, ◌-◌, ◌*◌, ◌/◌, ◌%◌, ◌≡◌, refl, min, true, false, [], ◌∷◌, none, some, pos, inr, arith,
  text_key, nat_key, pair_key,
}
use is_ntust_down.Probe.{
  unknown, sso_login_rejected, paused_after_failure, up_result, down_result, bare_result,
}
use is_ntust_down.Store.Schema.{Db, Zone, empty_db, BreakerRecord}
use is_ntust_down.Store.Table.{lookup, upsert}
use is_ntust_down.Store.Live.{
  record_result, load_breaker, count_attempts_since, current_states, save_breaker,
}
use is_ntust_down.Scheduler.OnStore.{Disk, store_repository}
use is_ntust_down.Scheduler.Guard.{
  Job, GuardConfig, Readings, run_once, guard_blocks, next_backoff, ceiling_blocks, gate_blocks,
  probe_and_record,
}
use is_ntust_down.Scheduler.Sweep.{run_job}
use is_ntust_down.Scheduler.Days.{Moment}
use is_ntust_down.Scheduler.Lockout.{
  IsCleared, guard_blocks-IsCleared, IsCleared-guard_blocks, run_once-IsCleared,
}
use is_ntust_down.Scheduler.Pauses.{paused_rows, rejected-pauses}
use is_ntust_down.Scheduler.Backoff.{backoff_after, backoff_after_lem}

-- a zone without an offset
abbrev pub utc : Zone
utc = record {
  day_of = λ t. t / 86400000000000;
  hour_of = λ t. t / 3600000000000;
  minute_of = λ t. t / 60000000000;
  hour_start = λ t. t - t % 3600000000000;
  day_start = λ d. d * 86400000000000;
  days_back = λ n t. t - n * 86400000000000;
}

abbrev pub guard_config : GuardConfig
guard_config = record {
  failure_threshold = pos 2;
  backoff_initial = 3600000000000;
  backoff_max = 43200000000000;
  max_attempts_per_day = pos 2;
}

-- a login that the service rejects; the world counts the logins
abbrev rejected_login : Job ℕ
rejected_login = record {
  key = "moodle.sso_login";
  run = λ w. (down_result 5 0 sso_login_rejected, suc w);
  interval = 3600000000000;
  guarded = true;
  gate_check_key = "moodle.sso_page";
}

abbrev pub page_up : Db
page_up = record_result "moodle.sso_page" (up_result 1 200) 1 empty_db

abbrev at_two : Readings
at_two = record { guard_at = 2; breaker_at = 3; record_at = 4 }

abbrev at_five : Readings
at_five = record { guard_at = 5; breaker_at = 6; record_at = 7 }

abbrev pub disk_of : Db → Disk
disk_of db = record { db = db; faults = [] }

page_up-IsCleared : IsCleared guard_config rejected_login 2 page_up
unfolding record_result load_breaker count_attempts_since current_states lookup upsert
page_up-IsCleared = record {
  not_paused = refl;
  below_ceiling = inr (omega arith);
  gate_open = inr refl;
}

abbrev pub start : Moment ℕ
start = record { now = 0; disk = disk_of empty_db; world = 0 }

rejected-pauses_example :
    let (_, disk, w') =
      run_once (store_repository utc) guard_config rejected_login at_two (disk_of page_up) 0 in
    let (results, disk', w'') =
      run_job (store_repository utc) guard_config rejected_login (at_five ∷ []) disk w' in
    (w'' ≡ w')
    × (results ≡ bare_result unknown paused_after_failure ∷ [])
    × (disk'.db.check_results ≡ paused_rows "moodle.sso_login" (at_five ∷ []) disk.db.check_results)
unfolding load_breaker next_backoff lookup record_result upsert
rejected-pauses_example =
    rejected-pauses utc guard_config rejected_login at_two (at_five ∷ []) page_up 0 refl
      page_up-IsCleared refl refl ((omega arith), tt)

rejected_once :
    (run_once (store_repository utc) guard_config rejected_login at_two (disk_of page_up) 0).2 ≡ 1
unfolding run_once guard_blocks store_repository ceiling_blocks gate_blocks probe_and_record
    load_breaker count_attempts_since current_states lookup record_result upsert
rejected_once = refl

run_once-IsCleared_example : IsCleared guard_config rejected_login 2 page_up
run_once-IsCleared_example =
    run_once-IsCleared utc guard_config rejected_login at_two (disk_of page_up) 0 refl
      (λ e. ground (arith, rejected_once, e))

guard_blocks-IsCleared_example : IsCleared guard_config rejected_login 2 page_up
guard_blocks-IsCleared_example =
    guard_blocks-IsCleared utc guard_config rejected_login 2 (disk_of page_up)
      (IsCleared-guard_blocks utc guard_config rejected_login 2 page_up page_up-IsCleared)

IsCleared-guard_blocks_example :
    (guard_blocks (store_repository utc) guard_config rejected_login 2 (disk_of page_up)).0.1
    ≡ false
IsCleared-guard_blocks_example =
    IsCleared-guard_blocks utc guard_config rejected_login 2 page_up page_up-IsCleared

abbrev paused : Db
paused =
    save_breaker
      (record {
        check_key = "moodle.sso_login";
        consecutive_fails = 0;
        open_until = some 100;
        backoff_seconds = 1;
      })
      page_up

backoff_after_lem_example : backoff_after guard_config 4 ≡ min (3600 * 8) 43200
backoff_after_lem_example = backoff_after_lem guard_config 3 (omega arith) (omega arith)

abbrev closed : BreakerRecord
closed = record {
  check_key = "moodle.sso_login";
  consecutive_fails = 0;
  open_until = none;
  backoff_seconds = 0;
}
