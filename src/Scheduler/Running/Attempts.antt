-- ===== src/Scheduler/Running/Attempts.antt =====
-- The daily ceiling on credentialed attempts through the lives of the process (Run, RunInitialSweep,
-- RunOnce and RunMaintenance of internal/scheduler).
use is_ntust_down.Prelude.{
  ℕ, suc, ◌-◌, ◌≤◌, ◌≡◌, ap, String, Bool, true, List, [], ◌∷◌, pos, eq_iff, str_eq, arith,
  Bool-cases, inl, inr,
}
use mathlib.Core.List.{mem-cons_self}
use mathlib.Core.List.Perm.{mem_iff}
use is_ntust_down.Store.Schema.{Zone, empty_db}
use is_ntust_down.Store.Live.{count_attempts_since}
use is_ntust_down.Store.Attempts.{count_attempts_since_antitone}
use is_ntust_down.Scheduler.OnStore.{Disk, store_repository}
use is_ntust_down.Scheduler.Guard.{Job, GuardConfig, Readings, day, run_once}
use is_ntust_down.Scheduler.Sweep.{MaintenanceConfig, has_fresh_result, sweep_guarded}
use is_ntust_down.Scheduler.Effects.{db-has_fresh_result}
use is_ntust_down.Scheduler.Upkeep.{attempts-maintain}
use is_ntust_down.Scheduler.Ceiling.{attempts_of_day, run_once-attempts}
use is_ntust_down.Scheduler.Days.{Moment}
use is_ntust_down.Scheduler.Running.{IsOrdered, Step, boot, tick, upkeep, Reach, here, next}
use is_ntust_down.Scheduler.Running.Others.{
  OnlyGuarded, OnlyGuarded-rest, attempts-run_once-other, attempts-sweep_unguarded,
}

-- the attempts of the 24 hours up to a time are within a ceiling
abbrev pub Within : String → ℕ → ℕ → Disk → Type 0
Within key limit now disk = attempts_of_day key now disk.db ≤ suc limit

Within-later :
    (key : String) (limit now later : ℕ) (disk : Disk)
    → now ≤ later
    → Within key limit now disk
    → Within key limit later disk
Within-later key limit now later disk h k =
    omega (arith, count_attempts_since_antitone key (now - day) (later - day) disk.db)

module _ {W : Type 0} (zone : Zone) (g : GuardConfig) (key : String) (limit : ℕ) where
  -- A cycle of any job keeps the attempts within the ceiling.
  run_once-Within :
      (job : Job W) (at : Readings) (disk : Disk) (w : W) (start : ℕ)
      → g.max_attempts_per_day ≡ pos (suc limit)
      → (job.key ≡ key → job.guarded ≡ true)
      → start ≤ at.guard_at
      → at.guard_at ≤ at.record_at
      → Within key limit start disk
      → Within key limit at.record_at (run_once (store_repository zone) g job at disk w).1
  run_once-Within job at disk w start m h a b k = elim (Bool-cases (str_eq job.key key)) [
    | inl e ↦
        let same = (eq_iff job.key key).0 e in
        rw (← same) (
          run_once-attempts zone g limit job at disk w (h same) m b
            (rw same (Within-later key limit start at.guard_at disk a k)))
    | inr e ↦ omega (
      arith,
      attempts-run_once-other zone g key job at disk w (at.record_at - day)
          (λ same. ground (arith, eq_iff job.key key, same, e)),
      Within-later key limit start at.record_at disk (omega arith) k,
    )
  ]

  -- So does the second phase of the sweep.
  sweep_guarded-Within :
      (at : Job W → Readings) (now : Job W → ℕ) (cancelled : Job W → Bool) (jobs : List (Job W))
      (disk : Disk) (w : W) (start stop : ℕ)
      → g.max_attempts_per_day ≡ pos (suc limit)
      → OnlyGuarded key jobs
      → IsOrdered at start jobs stop
      → Within key limit start disk
      → Within key limit stop
          (sweep_guarded (store_repository zone) g at now cancelled jobs disk w).0
  unfolding sweep_guarded
  sweep_guarded-Within at now cancelled [] disk w start stop m h o k =
      Within-later key limit start stop disk o k
  sweep_guarded-Within at now cancelled (job ∷ jobs) disk w start stop m h o k =
      let ahead = sweep_guarded-Within at now cancelled jobs in
      let h' = OnlyGuarded-rest key job jobs h in
      let (fresh, disk') = has_fresh_result (store_repository zone) job (now job) disk in
      let same = db-has_fresh_result zone job (now job) disk in
      elim (Bool-cases job.guarded) [
        | inr e ↦ simp e (ahead disk w start stop m h' (rw e at o) k)
        | inl e ↦
            let (a, b, c) = (rw e at o) in
            let stop_at = (at job).record_at in
            elim (Bool-cases (cancelled job)) [
              | inl x ↦
                  simp (e, x)
                    (ahead disk w stop_at stop m h' c
                      (Within-later key limit start stop_at disk (omega arith) k))
              | inr x ↦ elim (Bool-cases fresh) [
                | inl y ↦
                    simp (e, x, y)
                      (ahead disk' w stop_at stop m h' c
                        (rw same (Within-later key limit start stop_at disk (omega arith) k)))
                | inr y ↦
                    simp (e, x, y)
                      (ahead _ _ stop_at stop m h' c (
                        run_once-Within job (at job) disk' w start m (h job mem-cons_self) a b
                          (rw same k)))
              ]
            ]
      ]

  -- Every step of the process keeps the attempts within the ceiling.
  Step-Within :
      (cfg : MaintenanceConfig) (jobs : List (Job W)) (m n : Moment W)
      → g.max_attempts_per_day ≡ pos (suc limit)
      → OnlyGuarded key jobs
      → ((now : ℕ) → zone.days_back cfg.raw_retention_days now ≤ now - day)
      → Step zone g cfg jobs m n
      → Within key limit m.now m.disk
      → Within key limit n.now n.disk
  Step-Within cfg jobs m n p h keep (boot order at now cancelled q o e) k =
      rw (ap (λ (s : Disk × W). s.0) e) (
        sweep_guarded-Within at now cancelled jobs _ _ m.now n.now p h o (
          rw
            (attempts-sweep_unguarded zone g key at order m.disk m.world (m.now - day)
              (λ job i. h job ((mem_iff q).0 i)))
            k))
  Step-Within cfg jobs m n p h keep (tick job at i a b t d w) k =
      rw (t, d) (run_once-Within job at m.disk m.world m.now p (h job i) a b k)
  Step-Within cfg jobs m n p h keep (upkeep yesterday last_prune a d w) k = rw d (
      omega (
        arith,
        attempts-maintain zone key (n.now - day) cfg n.now yesterday last_prune m.disk (keep n.now),
        Within-later key limit m.now n.now m.disk a k,
      ))

  -- From an empty database, in every state that the process reaches by any number of starts and any
  -- ticks of its loops, whatever database calls fail and whatever the probes find, the last 24 hours
  -- hold at most the ceiling of attempts of a check, for a positive ceiling, where every job of the
  -- check is guarded and maintenance keeps the raw results of a day at least.
  pub Reach-Within :
      (cfg : MaintenanceConfig) (jobs : List (Job W)) {m n : Moment W}
      → g.max_attempts_per_day ≡ pos (suc limit)
      → OnlyGuarded key jobs
      → ((now : ℕ) → zone.days_back cfg.raw_retention_days now ≤ now - day)
      → m.disk.db ≡ empty_db
      → Reach zone g cfg jobs m n
      → Within key limit n.now n.disk
  unfolding count_attempts_since
  Reach-Within cfg jobs p h keep e here = rw e (omega arith)
  Reach-Within cfg jobs p h keep e (next r s) =
      Step-Within cfg jobs _ _ p h keep s (Reach-Within cfg jobs p h keep e r)
