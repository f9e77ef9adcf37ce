-- ===== src/Scheduler/Upkeep.antt =====
-- Maintenance (internal/scheduler/maintenance.go) leaves the attempts of the last day alone.
use is_ntust_down.Prelude.{ℕ, ◌≤◌, ◌≡◌, ap, count_by, String, List, [], ◌∷◌, arith}
use is_ntust_down.Store.Schema.{Db, Zone}
use is_ntust_down.Store.Live.{is_attempt, count_attempts_since}
use is_ntust_down.Store.Rollup.{rollup, rollup_hourly, prune_results, prune_daily, prune_hourly}
use is_ntust_down.Store.Attempts.{count_attempts_since-prune_results, check_results-maintenance}
use is_ntust_down.Scheduler.OnStore.{Disk, exec, store_repository}
use is_ntust_down.Scheduler.Sweep.{MaintenanceConfig, maintain}

module _ (zone : Zone) (key : String) (since : ℕ) where
  abbrev attempts : Db → ℕ
  attempts = count_attempts_since key since

  attempts-exec :
      (write : Db → Db) (disk : Disk)
      → attempts (write disk.db) ≡ attempts disk.db
      → attempts (exec write disk).1.db ≡ attempts disk.db
  attempts-exec write disk h = ground arith

  of_results : (a b : Db) → a.check_results ≡ b.check_results → attempts a ≡ attempts b
  unfolding count_attempts_since
  of_results a b e = ap (count_by (is_attempt key since)) e

  attempts-rollup :
      (days : List ℕ) (disk : Disk)
      → attempts ((store_repository zone).rollup days disk).1.db ≡ attempts disk.db
  unfolding store_repository
  attempts-rollup days disk =
      attempts-exec (rollup zone days) disk
        (of_results _ _ (check_results-maintenance zone 0 0 days disk.db).0)

  attempts-rollup_hourly :
      (hours now : ℕ) (disk : Disk)
      → attempts ((store_repository zone).rollup_hourly hours now disk).1.db ≡ attempts disk.db
  unfolding store_repository
  attempts-rollup_hourly hours now disk =
      attempts-exec (rollup_hourly zone hours now) disk
        (of_results _ _ (check_results-maintenance zone hours now [] disk.db).1)

  attempts-prune :
      (raw daily now : ℕ) (disk : Disk)
      → zone.days_back raw now ≤ since
      → attempts ((store_repository zone).prune raw daily now disk).1.db ≡ attempts disk.db
  unfolding store_repository
  attempts-prune raw daily now disk h =
      let pruned = (exec (prune_results zone raw now) disk).1 in
      ground (
        arith,
        attempts-exec (prune_results zone raw now) disk
            (count_attempts_since-prune_results zone key raw now since disk.db h),
        attempts-exec (prune_daily zone daily now) pruned
            (of_results _ _ (check_results-maintenance zone daily now [] pruned.db).2),
      )

  attempts-prune_hourly :
      (days now : ℕ) (disk : Disk)
      → attempts ((store_repository zone).prune_hourly days now disk).1.db ≡ attempts disk.db
  unfolding store_repository
  attempts-prune_hourly days now disk =
      attempts-exec (prune_hourly zone days now) disk
        (of_results _ _ (check_results-maintenance zone days now [] disk.db).3)

  -- A round of maintenance, whatever calls of it fail.
  pub attempts-maintain :
      (cfg : MaintenanceConfig) (now yesterday last_prune : ℕ) (disk : Disk)
      → zone.days_back cfg.raw_retention_days now ≤ since
      → attempts (maintain (store_repository zone) cfg now yesterday last_prune disk).1.db
        ≡ attempts disk.db
  unfolding maintain
  attempts-maintain cfg now yesterday last_prune disk h =
      let repo = store_repository zone in
      let d₁ = (repo.rollup (now ∷ yesterday ∷ []) disk).1 in
      let d₂ = (repo.rollup_hourly cfg.history_hours now d₁).1 in
      let d₃ = (repo.prune cfg.raw_retention_days cfg.daily_retention_days now d₂).1 in
      ground (
        arith,
        attempts-rollup (now ∷ yesterday ∷ []) disk,
        attempts-rollup_hourly cfg.history_hours now d₁,
        attempts-prune cfg.raw_retention_days cfg.daily_retention_days now d₂ h,
        attempts-prune_hourly cfg.hourly_retention_days now d₃,
      )
