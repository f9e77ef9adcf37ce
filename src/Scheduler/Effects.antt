-- ===== src/Scheduler/Effects.antt =====
-- What the steps of a cycle (internal/scheduler/scheduler.go) do to the store, whatever calls fail.
use is_ntust_down.Prelude.{ℕ, ◌≡◌, ◌⊎◌, String, arith}
use is_ntust_down.Probe.{Result}
use is_ntust_down.Store.Schema.{Db, Zone, BreakerRecord}
use is_ntust_down.Store.Live.{record_result, save_breaker}
use is_ntust_down.Scheduler.OnStore.{Disk, query, store_repository}
use is_ntust_down.Scheduler.Guard.{
  Job, GuardConfig, gate_blocks, ceiling_blocks, guard_blocks, update_breaker, record_outcome,
}
use is_ntust_down.Scheduler.Sweep.{has_fresh_result}

db-query : {A : Type 0} (read : Db → A) (disk : Disk) → (query read disk).1.db ≡ disk.db
db-query read disk = ground arith

module _ (zone : Zone) where
  db-gate_blocks :
      (gate : String) (disk : Disk) → (gate_blocks (store_repository zone) gate disk).1.db ≡ disk.db
  unfolding gate_blocks store_repository
  db-gate_blocks gate disk = ground arith

  db-ceiling_blocks :
      (g : GuardConfig) (key gate : String) (rec : BreakerRecord) (now : ℕ) (disk : Disk)
      → (ceiling_blocks (store_repository zone) g key gate rec now disk).1.db ≡ disk.db
  unfolding ceiling_blocks store_repository
  db-ceiling_blocks g key gate rec now disk = ground arith

  -- The guard reads and writes nothing.
  pub db-guard_blocks :
      {W : Type 0} (g : GuardConfig) (job : Job W) (now : ℕ) (disk : Disk)
      → (guard_blocks (store_repository zone) g job now disk).1.db ≡ disk.db
  unfolding guard_blocks store_repository
  db-guard_blocks g job now disk = ground arith

  pub check_results-update_breaker :
      (g : GuardConfig) (key : String) (res : Result) (now : ℕ) (disk : Disk)
      → (update_breaker (store_repository zone) g key res now disk).db.check_results
        ≡ disk.db.check_results
  unfolding update_breaker store_repository save_breaker
  check_results-update_breaker g key res now disk = ground arith

  -- An outcome is recorded as a whole or not at all.
  pub record_outcome_cases :
      (key : String) (res : Result) (now : ℕ) (disk : Disk)
      → let after = (record_outcome (store_repository zone) key res now disk).db in
        (after ≡ record_result key res now disk.db) ⊎ (after ≡ disk.db)
  unfolding record_outcome store_repository
  record_outcome_cases key res now disk = ground arith

  pub db-has_fresh_result :
      {W : Type 0} (job : Job W) (now : ℕ) (disk : Disk)
      → (has_fresh_result (store_repository zone) job now disk).1.db ≡ disk.db
  unfolding has_fresh_result store_repository
  db-has_fresh_result job now disk = ground arith
