-- ===== src/Scheduler/Lockout.antt =====
-- When a guarded job may reach its probe (guardBlocks and RunOnce of
-- internal/scheduler/scheduler.go), over the store and under any faults of the database.
use is_ntust_down.Prelude.{
  ℕ, ◌-◌, ◌≡◌, ◌⊎◌, refl, Bool, true, false, [], pos, ◌<ℤ◌, ◌≤ℤ◌, ◌≢◌, eq_iff, arith, text_key,
  Bool-cases, inl, inr,
}
use is_ntust_down.Probe.{ReasonCode}
use is_ntust_down.Store.Schema.{Db, Zone}
use is_ntust_down.Store.Table.{lookup}
use is_ntust_down.Store.Live.{current_states, load_breaker, count_attempts_since}
use is_ntust_down.Scheduler.Repository.{Repository}
use is_ntust_down.Scheduler.OnStore.{Disk, store_repository}
use is_ntust_down.Scheduler.Guard.{
  Job, GuardConfig, Readings, day, is_open, gate_is_up, guard_blocks, decline_or_probe, run_once,
}

-- What has to hold of the database for a job to be let through at `now`.
pub record IsCleared {W : Type 0} (g : GuardConfig) (job : Job W) (now : ℕ) (db : Db) : Type 0 where
  pub not_paused : is_open (load_breaker job.key db) now ≡ false
  pub below_ceiling :
      (g.max_attempts_per_day ≤ℤ pos 0)
      ⊎ (pos (count_attempts_since job.key (now - day) db) <ℤ g.max_attempts_per_day)
  pub gate_open :
      (job.gate_check_key ≡ "")
      ⊎ (gate_is_up (lookup job.gate_check_key (current_states db)) ≡ true)

module _ (zone : Zone) {W : Type 0} (g : GuardConfig) (job : Job W) where
  abbrev repo : Repository Disk
  repo = store_repository zone

  guard_blocks-not_paused :
      (now : ℕ) (disk : Disk)
      → (guard_blocks repo g job now disk).0.1 ≡ false
      → is_open (load_breaker job.key disk.db) now ≡ false
  unfolding guard_blocks store_repository
  guard_blocks-not_paused now disk h = ground arith

  guard_blocks-below_ceiling :
      (now : ℕ) (disk : Disk)
      → (guard_blocks repo g job now disk).0.1 ≡ false
      → (g.max_attempts_per_day ≤ℤ pos 0)
        ⊎ (pos (count_attempts_since job.key (now - day) disk.db) <ℤ g.max_attempts_per_day)
  unfolding guard_blocks store_repository
  guard_blocks-below_ceiling now disk h = ground arith

  guard_blocks-gate_open :
      (now : ℕ) (disk : Disk)
      → (guard_blocks repo g job now disk).0.1 ≡ false
      → (job.gate_check_key ≡ "")
        ⊎ (gate_is_up (lookup job.gate_check_key (current_states disk.db)) ≡ true)
  unfolding guard_blocks store_repository
  guard_blocks-gate_open now disk h = ground (arith, eq_iff job.gate_check_key "")

  -- The guard fails closed: whatever database calls fail, it lets through nothing that is not
  -- cleared.
  pub guard_blocks-IsCleared :
      (now : ℕ) (disk : Disk)
      → (guard_blocks repo g job now disk).0.1 ≡ false
      → IsCleared g job now disk.db
  guard_blocks-IsCleared now disk h = record {
    not_paused = guard_blocks-not_paused now disk h;
    below_ceiling = guard_blocks-below_ceiling now disk h;
    gate_open = guard_blocks-gate_open now disk h;
  }

  -- With a working database the guard lets through every job that is cleared.
  pub IsCleared-guard_blocks :
      (now : ℕ) (db : Db)
      → IsCleared g job now db
      → (guard_blocks repo g job now (record { db = db; faults = [] })).0.1 ≡ false
  unfolding guard_blocks store_repository
  IsCleared-guard_blocks now db h = ground (arith, eq_iff job.gate_check_key "")

  world-decline_or_probe :
      (at : Readings) (verdict : (ReasonCode × Bool) × Disk) (w : W)
      → verdict.0.1 ≡ true
      → (decline_or_probe repo g job at verdict w).2 ≡ w
  world-decline_or_probe at ((reason, true), disk) w h = refl
  world-decline_or_probe at ((reason, false), disk) w h = cc

  -- Whatever database calls fail, a cycle of a guarded job changes the outside world only if the
  -- job was cleared: no open breaker, the day's attempts below the ceiling if that is positive,
  -- and the gate up if the job has one.
  pub run_once-IsCleared :
      (at : Readings) (disk : Disk) (w : W)
      → job.guarded ≡ true
      → (run_once repo g job at disk w).2 ≢ w
      → IsCleared g job at.guard_at disk.db
  unfolding run_once
  run_once-IsCleared at disk w hg touched =
      elim (Bool-cases (guard_blocks repo g job at.guard_at disk).0.1) [
        | inl blocked ↦ absurd (
            touched (
              simp hg
                (world-decline_or_probe at (guard_blocks repo g job at.guard_at disk) w blocked)))
        | inr passed ↦ guard_blocks-IsCleared at.guard_at disk passed
      ]
