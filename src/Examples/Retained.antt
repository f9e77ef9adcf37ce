-- ===== src/Examples/Retained.antt =====
-- Two rounds of maintenance (internal/scheduler/maintenance.go) with a result before each.
use is_ntust_down.Prelude.{◌-◌, ◌<◌, ◌≡◌, [], ◌∷◌, arith}
use is_ntust_down.Probe.{up_result}
use is_ntust_down.Store.Schema.{empty_db}
use is_ntust_down.Scheduler.OnStore.{store_repository}
use is_ntust_down.Scheduler.Sweep.{MaintenanceConfig, Round, prune_every, run_maintenance}
use is_ntust_down.Scheduler.Pauses.{working}
use is_ntust_down.Scheduler.Retention.{stale, last_now, run_maintenance-kept}
use is_ntust_down.Examples.Schedule.{utc}

abbrev one_day : MaintenanceConfig
one_day = record {
  raw_retention_days = 1;
  daily_retention_days = 400;
  hourly_retention_days = 30;
  history_hours = 24;
}

-- an hour and a bit after the epoch, and two days later
abbrev first : Round
first = record {
  now = 4000000000000;
  yesterday = 0;
  recorded = record { key = "mail.site"; result = up_result 1 200; at = 5 } ∷ [];
}

abbrev second : Round
second = record {
  now = 176800000000000;
  yesterday = 90400000000000;
  recorded = record { key = "mail.site"; result = up_result 1 200; at = 5000000000000 } ∷ [];
}

run_maintenance-kept_example :
    let (last, disk) =
      run_maintenance (store_repository utc) one_day (first ∷ second ∷ []) 0 (working empty_db) in
    (last_now 0 (first ∷ second ∷ []) - last < prune_every)
    × (stale (utc.days_back 1 last) disk.db ≡ 0)
run_maintenance-kept_example =
    run_maintenance-kept utc one_day first (second ∷ []) empty_db (λ t. omega arith)
      (omega arith, (omega arith, tt), (omega arith, (omega arith, tt), tt)) (omega arith)
