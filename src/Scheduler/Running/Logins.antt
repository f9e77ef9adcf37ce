-- ===== src/Scheduler/Running/Logins.antt =====
-- The logins that the process really makes (RunOnce, RunInitialSweep and maintenance of
-- internal/scheduler), against those that the store has recorded and the database calls that failed.
pub mod Lives
use is_ntust_down.Prelude.{
  ℕ, ◌+◌, ◌-◌, ◌≤◌, ◌≡◌, ap, String, Bool, true, false, not, ◌&&◌, List, [], ◌∷◌, eq_iff, str_eq,
  arith, count_by, Bool-cases, inl, inr, if◌then◌else◌,
}
use mathlib.Core.List.Perm.{mem_iff}
use is_ntust_down.Scheduler.Days.{Moment}
use is_ntust_down.Scheduler.Running.{IsOrdered, Step, boot, tick, upkeep, Reach, here, next}
use is_ntust_down.Scheduler.Running.Others.{OnlyGuarded, OnlyGuarded-rest}
use mathlib.Core.List.{Mem, mem-cons_self, mem-cons_of_mem}
use is_ntust_down.Probe.{Result, ReasonCode, same_state, unknown, bare_result}
use is_ntust_down.Store.Schema.{Zone}
use is_ntust_down.Store.Live.{count_attempts_since, is_attempt}
use is_ntust_down.Scheduler.OnStore.{Disk, store_repository}
use is_ntust_down.Scheduler.Guard.{
  day, Job, GuardConfig, Readings, run_once, decline_or_probe, probe_and_record, update_breaker,
  guard_blocks,
}
use is_ntust_down.Scheduler.Sweep.{
  MaintenanceConfig, has_fresh_result, sweep_unguarded, sweep_guarded,
}
use is_ntust_down.Scheduler.Effects.{
  db-guard_blocks, check_results-update_breaker, db-has_fresh_result,
}
use is_ntust_down.Scheduler.Upkeep.{attempts-maintain}
use is_ntust_down.Scheduler.Running.Failures.{
  failures, failures-guard_blocks, failures-update_breaker, failures-has_fresh_result,
  failures-record_outcome, failures-maintain,
}

-- whether a result of a check is a login of another check's
abbrev pub is_login : String → String → Result → Bool
is_login key other res = str_eq other key && not (same_state res.state unknown)

-- A run of a job makes a login at most, if it is the check's and finds something out, and else none.
abbrev pub IsCounted : {W : Type 0} → String → (W → ℕ) → Job W → Type 0
IsCounted key logins job =
    (w : _)
    → logins (job.run w).1 ≤ (if is_login key job.key (job.run w).0 then 1 else 0) + logins w

abbrev pub AllCounted : {W : Type 0} → String → (W → ℕ) → List (Job W) → Type 0
AllCounted key logins jobs = (job : _) → Mem job jobs → IsCounted key logins job

module _ {W : Type 0} (zone : Zone) (g : GuardConfig) (key : String) (logins : W → ℕ)
    (since : ℕ) where
  -- Between two states, the logins made are recorded as attempts since an instant, but for one for
  -- each call that failed.
  abbrev pub Accounted : Disk → W → Disk → W → Type 0
  Accounted disk w disk' w' =
      logins w' + failures disk' + count_attempts_since key since disk.db
      ≤ logins w + failures disk + count_attempts_since key since disk'.db

  same-update_breaker :
      (other : String) (res : Result) (now : ℕ) (disk : Disk)
      → count_attempts_since key since
          (update_breaker (store_repository zone) g other res now disk).db
        ≡ count_attempts_since key since disk.db
  unfolding count_attempts_since
  same-update_breaker other res now disk =
      ap (count_by (is_attempt key since)) (check_results-update_breaker zone g other res now disk)

  probe_and_record-Accounted :
      (job : Job W) (at : Readings) (disk : Disk) (w : W)
      → IsCounted key logins job
      → (str_eq job.key key ≡ true → since ≤ at.record_at)
      → Accounted disk w
          (probe_and_record (store_repository zone) g job at disk w).1
          (probe_and_record (store_repository zone) g job at disk w).2
  unfolding probe_and_record
  probe_and_record-Accounted job at disk w c h =
      let res = (job.run w).0 in
      let after = update_breaker (store_repository zone) g job.key res at.breaker_at disk in
      ground (
        arith,
        c w,
        failures-record_outcome zone key job.key res at.record_at since disk h,
        failures-record_outcome zone key job.key res at.record_at since after h,
        failures-update_breaker zone g job.key res at.breaker_at disk,
        same-update_breaker job.key res at.breaker_at disk,
      )

  decline_or_probe-Accounted :
      (job : Job W) (at : Readings) (verdict : (ReasonCode × Bool) × Disk) (w : W)
      → IsCounted key logins job
      → (str_eq job.key key ≡ true → since ≤ at.record_at)
      → Accounted verdict.1 w
          (decline_or_probe (store_repository zone) g job at verdict w).1
          (decline_or_probe (store_repository zone) g job at verdict w).2
  decline_or_probe-Accounted job at ((reason, true), disk) w c h = ground (
    arith,
    failures-record_outcome zone key job.key (bare_result unknown reason) at.record_at since disk h,
  )
  decline_or_probe-Accounted job at ((reason, false), disk) w c h =
      probe_and_record-Accounted job at disk w c h

  pub run_once-Accounted :
      (job : Job W) (at : Readings) (disk : Disk) (w : W)
      → IsCounted key logins job
      → (str_eq job.key key ≡ true → since ≤ at.record_at)
      → Accounted disk w
          (run_once (store_repository zone) g job at disk w).1
          (run_once (store_repository zone) g job at disk w).2
  unfolding run_once
  run_once-Accounted job at disk w c h =
      let verdict = guard_blocks (store_repository zone) g job at.guard_at disk in
      elim (Bool-cases job.guarded) [
        | inl e ↦ simp e (
            omega (
              arith,
              decline_or_probe-Accounted job at verdict w c h,
              failures-guard_blocks zone g job at.guard_at disk,
              ap (count_attempts_since key since) (db-guard_blocks zone g job at.guard_at disk),
            ))
        | inr e ↦ simp e (probe_and_record-Accounted job at disk w c h)
      ]

  pub sweep_unguarded-Accounted :
      (at : Job W → Readings) (order : List (Job W)) (disk : Disk) (w : W)
      → AllCounted key logins order
      → OnlyGuarded key order
      → Accounted disk w
          (sweep_unguarded (store_repository zone) g at order disk w).0
          (sweep_unguarded (store_repository zone) g at order disk w).1
  unfolding sweep_unguarded
  sweep_unguarded-Accounted at [] disk w c h = omega arith
  sweep_unguarded-Accounted at (job ∷ order) disk w c h =
      let c' = λ (j : Job W) (m : Mem j order). c j (mem-cons_of_mem job m) in
      let h' = OnlyGuarded-rest key job order h in
      let (res, disk', w') = run_once (store_repository zone) g job (at job) disk w in
      elim (Bool-cases job.guarded) [
        | inl e ↦ simp e (sweep_unguarded-Accounted at order disk w c' h')
        | inr e ↦ simp e (
            omega (
              arith,
              run_once-Accounted job (at job) disk w (c job mem-cons_self) (λ same.
                  absurd (ground (arith, h job mem-cons_self ((eq_iff job.key key).0 same), e))),
              sweep_unguarded-Accounted at order disk' w' c' h',
            ))
      ]

  pub sweep_guarded-Accounted :
      (at : Job W → Readings) (now : Job W → ℕ) (cancelled : Job W → Bool) (jobs : List (Job W))
      (disk : Disk) (w : W) (start stop : ℕ)
      → AllCounted key logins jobs
      → since ≤ start
      → IsOrdered at start jobs stop
      → Accounted disk w
          (sweep_guarded (store_repository zone) g at now cancelled jobs disk w).0
          (sweep_guarded (store_repository zone) g at now cancelled jobs disk w).1
  unfolding sweep_guarded
  sweep_guarded-Accounted at now cancelled [] disk w start stop c l o = omega arith
  sweep_guarded-Accounted at now cancelled (job ∷ jobs) disk w start stop c l o =
      let c' = λ (j : Job W) (m : Mem j jobs). c j (mem-cons_of_mem job m) in
      let ahead = λ (d : Disk) (v : W). sweep_guarded-Accounted at now cancelled jobs d v in
      let (fresh, disk') = has_fresh_result (store_repository zone) job (now job) disk in
      let (res, disk'', w'') = run_once (store_repository zone) g job (at job) disk' w in
      let asked : Accounted disk w disk' w = omega (
        arith,
        failures-has_fresh_result zone job (now job) disk,
        ap (count_attempts_since key since) (db-has_fresh_result zone job (now job) disk),
      ) in
      elim (Bool-cases job.guarded) [
        | inr e ↦ simp e (ahead disk w start stop c' l (rw e at o))
        | inl e ↦
            let (a, b, o') = (rw e at o) in
            let r = (at job).record_at in
            let l' : since ≤ r = omega (arith, a, b, l) in
            elim (Bool-cases (cancelled job)) [
              | inl x ↦ simp (e, x) (ahead disk w r stop c' l' o')
              | inr x ↦ elim (Bool-cases fresh) [
                | inl y ↦ simp (e, x, y) (omega (arith, asked, ahead disk' w r stop c' l' o'))
                | inr y ↦
                    simp (e, x, y)
                      (omega (
                        arith,
                        asked,
                        run_once-Accounted job (at job) disk' w (c job mem-cons_self) (λ same. l'),
                        ahead disk'' w'' r stop c' l' o',
                      ))
              ]
            ]
      ]
