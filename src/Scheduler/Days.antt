-- ===== src/Scheduler/Days.antt =====
-- The scheduler of internal/scheduler over time: cycles of one guarded job, results that other jobs
-- record, and maintenance, in any order that the clock allows and under any faults.
use is_ntust_down.Prelude.{ℕ, suc, ◌-◌, ◌≤◌, ◌≡◌, ◌≢◌, String, true, pos, eq_iff, arith}
use is_ntust_down.Probe.{Result}
use is_ntust_down.Store.Schema.{Zone, empty_db}
use is_ntust_down.Store.Live.{count_attempts_since}
use is_ntust_down.Store.Attempts.{count_attempts_since-record_result, count_attempts_since_antitone}
use is_ntust_down.Scheduler.OnStore.{Disk, store_repository}
use is_ntust_down.Scheduler.Guard.{Job, GuardConfig, Readings, day, record_outcome, run_once}
use is_ntust_down.Scheduler.Sweep.{MaintenanceConfig, maintain}
use is_ntust_down.Scheduler.Effects.{record_outcome_cases}
use is_ntust_down.Scheduler.Upkeep.{attempts-maintain}
use is_ntust_down.Scheduler.Ceiling.{attempts_of_day, run_once-attempts}

-- one step from a state of the disk and the world, at a time, to another at a later time
pub record Moment (W : Type 0) : Type 0 where
  pub now : ℕ
  pub disk : Disk
  pub world : W

module _ {W : Type 0} (zone : Zone) (g : GuardConfig) (job : Job W) where
  pub data Step (m n : Moment W) : Type 0 where
    -- the guarded job goes through a cycle
    cycle :
        (at : Readings)
        → m.now ≤ at.guard_at
        → at.guard_at ≤ at.breaker_at
        → at.breaker_at ≤ at.record_at
        → n.now ≡ at.record_at
        → n.disk ≡ (run_once (store_repository zone) g job at m.disk m.world).1
        → n.world ≡ (run_once (store_repository zone) g job at m.disk m.world).2
        → Step m n
    -- another job records its outcome
    other :
        (key : String) (res : Result)
        → key ≢ job.key
        → m.now ≤ n.now
        → n.disk ≡ record_outcome (store_repository zone) key res n.now m.disk
        → Step m n
    -- a round of maintenance, which keeps the raw results of a day at least
    upkeep :
        (cfg : MaintenanceConfig) (yesterday last_prune : ℕ)
        → m.now ≤ n.now
        → zone.days_back cfg.raw_retention_days n.now ≤ n.now - day
        → n.disk ≡ (maintain (store_repository zone) cfg n.now yesterday last_prune m.disk).1
        → Step m n

  pub data Reach (m : Moment W) : Moment W → Type 0 where
    here : Reach m m
    next : {n o : Moment W} → Reach m n → Step n o → Reach m o

module _ (zone : Zone) where
  pub attempts-other :
      (key other_key : String) (res : Result) (now since : ℕ) (disk : Disk)
      → other_key ≢ key
      → count_attempts_since key since
          (record_outcome (store_repository zone) other_key res now disk).db
        ≡ count_attempts_since key since disk.db
  attempts-other key other_key res now since disk ne = ground (
    arith,
    record_outcome_cases zone other_key res now disk,
    count_attempts_since-record_result key other_key res now since disk.db,
    eq_iff other_key key,
  )

  -- Every step keeps the day's attempts of the guarded job within the ceiling.
  Step-attempts :
      {W : Type 0} (g : GuardConfig) (job : Job W) (limit : ℕ) (m n : Moment W)
      → job.guarded ≡ true
      → g.max_attempts_per_day ≡ pos (suc limit)
      → Step zone g job m n
      → attempts_of_day job.key m.now m.disk.db ≤ suc limit
      → attempts_of_day job.key n.now n.disk.db ≤ suc limit
  Step-attempts g job limit m n hg hm (cycle at h₁ h₂ h₃ e d _) hc =
      rw (e, d)
        (run_once-attempts zone g limit job at m.disk m.world hg hm (omega arith) (
          omega (
            arith,
            count_attempts_since_antitone job.key (m.now - day) (at.guard_at - day) m.disk.db,
          )))
  Step-attempts g job limit m n hg hm (other key res ne h d) hc = rw d (
      omega (
        arith,
        attempts-other job.key key res n.now (n.now - day) m.disk ne,
        count_attempts_since_antitone job.key (m.now - day) (n.now - day) m.disk.db,
      ))
  Step-attempts g job limit m n hg hm (upkeep cfg yesterday last_prune h keep d) hc = rw d (
      omega (
        arith,
        attempts-maintain zone job.key (n.now - day) cfg n.now yesterday last_prune m.disk keep,
        count_attempts_since_antitone job.key (m.now - day) (n.now - day) m.disk.db,
      ))

  -- For a guarded job and a positive ceiling, in every state that the scheduler reaches from an
  -- empty database, by cycles of the job, results of other jobs and rounds of maintenance that
  -- keep raw results for a day at least, in any order that the clock allows and whatever database
  -- calls fail, the last 24 hours hold at most the ceiling of attempts.
  Reach-attempts :
      {W : Type 0} (g : GuardConfig) (job : Job W) (limit : ℕ) {m n : Moment W}
      → job.guarded ≡ true
      → g.max_attempts_per_day ≡ pos (suc limit)
      → m.disk.db ≡ empty_db
      → Reach zone g job m n
      → attempts_of_day job.key n.now n.disk.db ≤ suc limit
  unfolding count_attempts_since
  Reach-attempts g job limit hg hm he here = rw he (omega arith)
  Reach-attempts g job limit hg hm he (next r s) =
      Step-attempts g job limit _ _ hg hm s (Reach-attempts g job limit hg hm he r)
