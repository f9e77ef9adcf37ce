-- ===== src/Scheduler/Running/Others.antt =====
-- Cycles of other jobs (RunOnce of internal/scheduler/scheduler.go) and the attempts of a guarded one.
use is_ntust_down.Prelude.{
  ℕ, ◌≡◌, ◌≢◌, refl, ap, ◌∙◌, String, Bool, true, false, List, [], ◌∷◌, count_by, arith, Bool-cases,
  inl, inr,
}
use mathlib.Core.List.{Mem, mem-cons_self, mem-cons_of_mem}
use is_ntust_down.Store.Schema.{Zone}
use is_ntust_down.Store.Live.{is_attempt, count_attempts_since}
use is_ntust_down.Probe.{Result, ReasonCode, bare_result, unknown}
use is_ntust_down.Scheduler.OnStore.{Disk, store_repository}
use is_ntust_down.Scheduler.Guard.{
  Job, GuardConfig, Readings, run_once, decline_or_probe, probe_and_record, update_breaker,
  guard_blocks,
}
use is_ntust_down.Scheduler.Sweep.{sweep_unguarded}
use is_ntust_down.Scheduler.Effects.{db-guard_blocks, check_results-update_breaker}
use is_ntust_down.Scheduler.Days.{attempts-other}

attempts-update_breaker-any :
    (zone : Zone) (g : GuardConfig) (key other : String) (res : Result) (now : ℕ) (disk : Disk)
    (since : ℕ)
    → count_attempts_since key since
        (update_breaker (store_repository zone) g other res now disk).db
      ≡ count_attempts_since key since disk.db
unfolding count_attempts_since
attempts-update_breaker-any zone g key other res now disk since =
    ap (count_by (is_attempt key since)) (check_results-update_breaker zone g other res now disk)

-- only a guarded job has the key
abbrev pub OnlyGuarded : {W : Type 0} → String → List (Job W) → Type 0
OnlyGuarded key jobs = (job : Job _) → Mem job jobs → job.key ≡ key → job.guarded ≡ true

pub OnlyGuarded-rest :
    {W : Type 0} (key : String) (job : Job W) (jobs : List (Job W))
    → OnlyGuarded key (job ∷ jobs)
    → OnlyGuarded key jobs
OnlyGuarded-rest key job jobs h other m = h other (mem-cons_of_mem job m)

module _ {W : Type 0} (zone : Zone) (g : GuardConfig) (key : String) where
  -- A cycle of another job is no attempt of this one.
  attempts-probe_and_record-other :
      (job : Job W) (at : Readings) (disk : Disk) (w : W) (since : ℕ)
      → job.key ≢ key
      → count_attempts_since key since
          (probe_and_record (store_repository zone) g job at disk w).1.db
        ≡ count_attempts_since key since disk.db
  unfolding probe_and_record
  attempts-probe_and_record-other job at disk w since ne =
      let res = (job.run w).0 in
      let after = update_breaker (store_repository zone) g job.key res at.breaker_at disk in
      ground (
        arith,
        attempts-other zone key job.key res at.record_at since disk ne,
        attempts-other zone key job.key res at.record_at since after ne,
        attempts-update_breaker-any zone g key job.key res at.breaker_at disk since,
      )

  attempts-decline_or_probe-other :
      (job : Job W) (at : Readings) (verdict : (ReasonCode × Bool) × Disk) (w : W) (since : ℕ)
      → job.key ≢ key
      → count_attempts_since key since
          (decline_or_probe (store_repository zone) g job at verdict w).1.db
        ≡ count_attempts_since key since verdict.1.db
  attempts-decline_or_probe-other job at ((reason, true), disk) w since ne =
      attempts-other zone key job.key (bare_result unknown reason) at.record_at since disk ne
  attempts-decline_or_probe-other job at ((reason, false), disk) w since ne =
      attempts-probe_and_record-other job at disk w since ne

  pub attempts-run_once-other :
      (job : Job W) (at : Readings) (disk : Disk) (w : W) (since : ℕ)
      → job.key ≢ key
      → count_attempts_since key since (run_once (store_repository zone) g job at disk w).1.db
        ≡ count_attempts_since key since disk.db
  unfolding run_once
  attempts-run_once-other job at disk w since ne =
      let same = db-guard_blocks zone g job at.guard_at disk in
      elim (Bool-cases job.guarded) [
        | inl e ↦ simp e (
            attempts-decline_or_probe-other job at
              (guard_blocks (store_repository zone) g job at.guard_at disk) w since ne
            ∙ ap (count_attempts_since key since) same)
        | inr e ↦ simp e (attempts-probe_and_record-other job at disk w since ne)
      ]

  -- The first phase of the sweep holds no attempt.
  pub attempts-sweep_unguarded :
      (at : Job W → Readings) (order : List (Job W)) (disk : Disk) (w : W) (since : ℕ)
      → OnlyGuarded key order
      → count_attempts_since key since
          (sweep_unguarded (store_repository zone) g at order disk w).0.db
        ≡ count_attempts_since key since disk.db
  unfolding sweep_unguarded
  attempts-sweep_unguarded at [] disk w since h = refl
  attempts-sweep_unguarded at (job ∷ order) disk w since h =
      let (res, disk', w') = run_once (store_repository zone) g job (at job) disk w in
      elim (Bool-cases job.guarded) [
        | inl e ↦
            simp e
              (attempts-sweep_unguarded at order disk w since (OnlyGuarded-rest key job order h))
        | inr e ↦ simp e (
            attempts-sweep_unguarded at order disk' w' since (OnlyGuarded-rest key job order h)
            ∙ attempts-run_once-other job (at job) disk w since
                (λ same. ground (arith, h job mem-cons_self same, e)))
      ]
