-- ===== src/Scheduler/Running/Failures.antt =====
-- The database calls that fail, as a cycle and a round of maintenance of internal/scheduler use them
-- up.
use is_ntust_down.Prelude.{
  ℕ, ◌+◌, ◌-◌, ◌≤◌, ◌≡◌, String, Bool, true, not, ◌&&◌, List, [], ◌∷◌, str_eq, arith, count_by,
  Bool-cases, inl, inr, if◌then◌else◌,
}
use is_ntust_down.Probe.{Result, same_state, unknown}
use is_ntust_down.Store.Schema.{Db, Zone, BreakerRecord}
use is_ntust_down.Store.Live.{count_attempts_since, load_breaker}
use is_ntust_down.Store.Attempts.{count_attempts_since-record_result}
use is_ntust_down.Store.Rollup.{prune_results, prune_daily}
use is_ntust_down.Scheduler.OnStore.{Disk, query, exec, store_repository}
use is_ntust_down.Scheduler.Guard.{
  day, Job, GuardConfig, update_breaker, record_outcome, guard_blocks, ceiling_blocks, gate_blocks,
}
use is_ntust_down.Scheduler.Sweep.{MaintenanceConfig, has_fresh_result, maintain}

-- how many of the coming database calls fail
abbrev pub failures : Disk → ℕ
failures disk = count_by (λ (b : Bool). b) disk.faults

failures-query :
    {A : Type 0} (read : Db → A) (disk : Disk) → failures (query read disk).1 ≤ failures disk
failures-query read disk = ground arith

failures-exec : (write : Db → Db) (disk : Disk) → failures (exec write disk).1 ≤ failures disk
failures-exec write disk = ground arith

module _ (zone : Zone) where
  failures-gate_blocks :
      (gate : String) (disk : Disk)
      → failures (gate_blocks (store_repository zone) gate disk).1 ≤ failures disk
  unfolding gate_blocks store_repository
  failures-gate_blocks gate disk = ground arith

  failures-ceiling_blocks :
      (g : GuardConfig) (key gate : String) (rec : BreakerRecord) (now : ℕ) (disk : Disk)
      → failures (ceiling_blocks (store_repository zone) g key gate rec now disk).1 ≤ failures disk
  unfolding ceiling_blocks store_repository
  failures-ceiling_blocks g key gate rec now disk = ground (
    arith,
    failures-gate_blocks gate disk,
    failures-gate_blocks gate ((store_repository zone).count_attempts_since key (now - day) disk).1,
    failures-query (count_attempts_since key (now - day)) disk,
  )

  pub failures-guard_blocks :
      {W : Type 0} (g : GuardConfig) (job : Job W) (now : ℕ) (disk : Disk)
      → failures (guard_blocks (store_repository zone) g job now disk).1 ≤ failures disk
  unfolding guard_blocks store_repository
  failures-guard_blocks g job now disk =
      let disk' = (query (load_breaker job.key) disk).1 in
      ground (
        arith,
        failures-query (load_breaker job.key) disk,
        λ (rec : BreakerRecord). failures-ceiling_blocks g job.key job.gate_check_key rec now disk',
      )

  pub failures-update_breaker :
      (g : GuardConfig) (key : String) (res : Result) (now : ℕ) (disk : Disk)
      → failures (update_breaker (store_repository zone) g key res now disk) ≤ failures disk
  unfolding update_breaker store_repository
  failures-update_breaker g key res now disk =
      ground (arith, failures-query (load_breaker key) disk)

  pub failures-has_fresh_result :
      {W : Type 0} (job : Job W) (now : ℕ) (disk : Disk)
      → failures (has_fresh_result (store_repository zone) job now disk).1 ≤ failures disk
  unfolding has_fresh_result store_repository
  failures-has_fresh_result job now disk = ground arith

  -- an outcome is recorded, or a call fails
  pub failures-record_outcome :
      (key other : String) (res : Result) (now since : ℕ) (disk : Disk)
      → (str_eq other key ≡ true → since ≤ now)
      → let after = record_outcome (store_repository zone) other res now disk in
        (if str_eq other key && not (same_state res.state unknown) then 1 else 0)
          + failures after
          + count_attempts_since key since disk.db
        ≤ failures disk + count_attempts_since key since after.db
  unfolding record_outcome store_repository
  failures-record_outcome key other res now since disk h = elim (Bool-cases (str_eq other key)) [
    | inl e ↦
        ground (arith, h e, e, count_attempts_since-record_result key other res now since disk.db)
    | inr e ↦ ground (arith, e, count_attempts_since-record_result key other res now since disk.db)
  ]

  failures-rollup :
      (days : List ℕ) (disk : Disk)
      → failures ((store_repository zone).rollup days disk).1 ≤ failures disk
  unfolding store_repository
  failures-rollup days disk = failures-exec _ disk

  failures-rollup_hourly :
      (hours now : ℕ) (disk : Disk)
      → failures ((store_repository zone).rollup_hourly hours now disk).1 ≤ failures disk
  unfolding store_repository
  failures-rollup_hourly hours now disk = failures-exec _ disk

  failures-prune_hourly :
      (days now : ℕ) (disk : Disk)
      → failures ((store_repository zone).prune_hourly days now disk).1 ≤ failures disk
  unfolding store_repository
  failures-prune_hourly days now disk = failures-exec _ disk

  failures-prune :
      (raw daily now : ℕ) (disk : Disk)
      → failures ((store_repository zone).prune raw daily now disk).1 ≤ failures disk
  unfolding store_repository
  failures-prune raw daily now disk =
      let pruned = (exec (prune_results zone raw now) disk).1 in
      ground (
        arith,
        failures-exec (prune_results zone raw now) disk,
        failures-exec (prune_daily zone daily now) pruned,
      )

  pub failures-maintain :
      (cfg : MaintenanceConfig) (now yesterday last_prune : ℕ) (disk : Disk)
      → failures (maintain (store_repository zone) cfg now yesterday last_prune disk).1
        ≤ failures disk
  unfolding maintain
  failures-maintain cfg now yesterday last_prune disk =
      let repo = store_repository zone in
      let d₁ = (repo.rollup (now ∷ yesterday ∷ []) disk).1 in
      let d₂ = (repo.rollup_hourly cfg.history_hours now d₁).1 in
      let d₃ = (repo.prune cfg.raw_retention_days cfg.daily_retention_days now d₂).1 in
      ground (
        arith,
        failures-rollup (now ∷ yesterday ∷ []) disk,
        failures-rollup_hourly cfg.history_hours now d₁,
        failures-prune cfg.raw_retention_days cfg.daily_retention_days now d₂,
        failures-prune_hourly cfg.hourly_retention_days now d₃,
      )
