-- ===== src/Scheduler/Ceiling.antt =====
-- The daily ceiling on credentialed attempts (guardBlocks and RunOnce of
-- internal/scheduler/scheduler.go) over the store, with other jobs and maintenance in between.
use is_ntust_down.Prelude.{
  ℕ, suc, ◌-◌, ◌≤◌, ◌<◌, ◌≡◌, refl, ap, count_by, String, Bool, true, false, pos, arith,
}
use is_ntust_down.Probe.{unknown, ReasonCode, Result, bare_result}
use is_ntust_down.Store.Schema.{Db, Zone, BreakerRecord}
use is_ntust_down.Store.Live.{is_attempt, count_attempts_since}
use is_ntust_down.Store.Attempts.{count_attempts_since-record_result, count_attempts_since_antitone}
use is_ntust_down.Scheduler.OnStore.{Disk, store_repository}
use is_ntust_down.Scheduler.Guard.{
  Job, GuardConfig, decline_or_probe, Readings, day, ceiling_blocks, guard_blocks, update_breaker,
  record_outcome, probe_and_record, run_once,
}
use is_ntust_down.Scheduler.Effects.{
  db-guard_blocks, check_results-update_breaker, record_outcome_cases,
}

-- the attempts of the 24 hours up to `now` that the store knows of
abbrev pub attempts_of_day : String → ℕ → Db → ℕ
attempts_of_day key now db = count_attempts_since key (now - day) db

module _ (zone : Zone) where
  ceiling_blocks-lt :
      (g : GuardConfig) (limit : ℕ) (key gate : String) (rec : BreakerRecord) (now : ℕ)
      (disk : Disk)
      → g.max_attempts_per_day ≡ pos (suc limit)
      → (ceiling_blocks (store_repository zone) g key gate rec now disk).0.1 ≡ false
      → attempts_of_day key now disk.db < suc limit
  unfolding ceiling_blocks store_repository
  ceiling_blocks-lt g limit key gate rec now disk h e = ground arith

  -- The guard lets a job through only below the ceiling.
  guard_blocks-lt :
      {W : Type 0} (g : GuardConfig) (limit : ℕ) (job : Job W) (now : ℕ) (disk : Disk)
      → g.max_attempts_per_day ≡ pos (suc limit)
      → (guard_blocks (store_repository zone) g job now disk).0.1 ≡ false
      → attempts_of_day job.key now disk.db < suc limit
  unfolding guard_blocks store_repository
  guard_blocks-lt g limit job now disk h e = ground arith

  attempts-record_outcome :
      (key : String) (res : Result) (now : ℕ) (disk : Disk) (since : ℕ)
      → count_attempts_since key since (record_outcome (store_repository zone) key res now disk).db
        ≤ suc (count_attempts_since key since disk.db)
  attempts-record_outcome key res now disk since = ground (
    arith,
    record_outcome_cases zone key res now disk,
    count_attempts_since-record_result key key res now since disk.db,
  )

  -- a job that the guard declines
  attempts-declined :
      (key : String) (res : Result) (now : ℕ) (disk : Disk) (since : ℕ)
      → res.state ≡ unknown
      → count_attempts_since key since (record_outcome (store_repository zone) key res now disk).db
        ≡ count_attempts_since key since disk.db
  attempts-declined key res now disk since h = ground (
    arith,
    record_outcome_cases zone key res now disk,
    count_attempts_since-record_result key key res now since disk.db,
  )

  pub attempts-update_breaker :
      (g : GuardConfig) (key : String) (res : Result) (now : ℕ) (disk : Disk) (since : ℕ)
      → count_attempts_since key since
          (update_breaker (store_repository zone) g key res now disk).db
        ≡ count_attempts_since key since disk.db
  unfolding count_attempts_since
  attempts-update_breaker g key res now disk since =
      ap (count_by (is_attempt key since)) (check_results-update_breaker zone g key res now disk)

  attempts-probe_and_record :
      {W : Type 0} (g : GuardConfig) (job : Job W) (at : Readings) (disk : Disk) (w : W) (since : ℕ)
      → count_attempts_since job.key since
          (probe_and_record (store_repository zone) g job at disk w).1.db
        ≤ suc (count_attempts_since job.key since disk.db)
  unfolding probe_and_record
  attempts-probe_and_record g job at disk w since =
      let res = (job.run w).0 in
      let after = update_breaker (store_repository zone) g job.key res at.breaker_at disk in
      ground (
        arith,
        attempts-record_outcome job.key res at.record_at after since,
        attempts-record_outcome job.key res at.record_at disk since,
        attempts-update_breaker g job.key res at.breaker_at disk since,
      )

  attempts-decline_or_probe :
      {W : Type 0} (g : GuardConfig) (limit : ℕ) (job : Job W) (at : Readings)
      (verdict : (ReasonCode × Bool) × Disk) (w : W)
      → at.guard_at ≤ at.record_at
      → (verdict.0.1 ≡ false → attempts_of_day job.key at.guard_at verdict.1.db < suc limit)
      → attempts_of_day job.key at.guard_at verdict.1.db ≤ suc limit
      → attempts_of_day job.key at.record_at
          (decline_or_probe (store_repository zone) g job at verdict w).1.db
        ≤ suc limit
  attempts-decline_or_probe g limit job at ((reason, true), disk) w ht pass hc = ground (
    arith,
    attempts-declined job.key (bare_result unknown reason) at.record_at disk (at.record_at - day),
    count_attempts_since_antitone job.key (at.guard_at - day) (at.record_at - day) disk.db,
  )
  attempts-decline_or_probe g limit job at ((reason, false), disk) w ht pass hc = ground (
    arith,
    pass refl,
    attempts-probe_and_record g job at disk w (at.record_at - day),
    count_attempts_since_antitone job.key (at.guard_at - day) (at.record_at - day) disk.db,
  )

  -- One cycle of a guarded job keeps the day's attempts within the ceiling.
  pub run_once-attempts :
      {W : Type 0} (g : GuardConfig) (limit : ℕ) (job : Job W) (at : Readings) (disk : Disk) (w : W)
      → job.guarded ≡ true
      → g.max_attempts_per_day ≡ pos (suc limit)
      → at.guard_at ≤ at.record_at
      → attempts_of_day job.key at.guard_at disk.db ≤ suc limit
      → attempts_of_day job.key at.record_at (run_once (store_repository zone) g job at disk w).1.db
        ≤ suc limit
  unfolding run_once
  run_once-attempts g limit job at disk w hg hm ht hc =
      let same = db-guard_blocks zone g job at.guard_at disk in
      simp hg (
        attempts-decline_or_probe g limit job at
          (guard_blocks (store_repository zone) g job at.guard_at disk) w ht
          (λ e. rw same (guard_blocks-lt g limit job at.guard_at disk hm e)) (rw same hc))
