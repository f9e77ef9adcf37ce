-- ===== src/Scheduler/Running.antt =====
-- Run and RunMaintenance of internal/scheduler over the lives of the process: each life begins with
-- the initial sweep, then the loops of the jobs and of maintenance tick in any order. A cycle is one
-- step, and a sweep that maintenance interrupts is a sequence of ticks.
pub mod Others
pub mod Failures
pub mod Logins
pub mod Attempts
use is_ntust_down.Prelude.{ℕ, ◌-◌, ◌≤◌, ◌≡◌, Bool, true, false, List, [], ◌∷◌, if◌then◌else◌}
use mathlib.Core.List.{Mem, Perm}
use is_ntust_down.Store.Schema.{Zone}
use is_ntust_down.Scheduler.OnStore.{Disk, store_repository}
use is_ntust_down.Scheduler.Guard.{Job, GuardConfig, Readings, run_once}
use is_ntust_down.Scheduler.Sweep.{MaintenanceConfig, sweep_unguarded, sweep_guarded, maintain}
use is_ntust_down.Scheduler.Days.{Moment}

-- the second phase runs the guarded jobs one after the other, between two times
abbrev pub IsOrdered : {W : Type 0} → (Job W → Readings) → ℕ → List (Job W) → ℕ → Type 0
IsOrdered at start [] stop = start ≤ stop
IsOrdered at start (job ∷ rest) stop = elim job.guarded [
  | false ↦ IsOrdered at start rest stop
  | true ↦
      (start ≤ (at job).guard_at)
      × ((at job).guard_at ≤ (at job).record_at)
      × IsOrdered at (at job).record_at rest stop
]

module _ {W : Type 0} (zone : Zone) (g : GuardConfig) (cfg : MaintenanceConfig)
    (jobs : List (Job W)) where
  -- RunInitialSweep, where the concurrent runs of the first phase end in an order
  abbrev pub swept :
      List (Job W) → (Job W → Readings) → (Job W → ℕ) → (Job W → Bool) → Moment W → Disk × W
  swept order at now cancelled m =
      let repo = store_repository zone in
      let (disk, world) = sweep_unguarded repo g at order m.disk m.world in
      sweep_guarded repo g at now cancelled jobs disk world

  pub data Step (m n : Moment W) : Type 0 where
    -- the start of a life, where the first phase ends in any order
    boot :
        (order : List (Job W)) (at : Job W → Readings) (now : Job W → ℕ) (cancelled : Job W → Bool)
        → Perm order jobs
        → IsOrdered at m.now jobs n.now
        → (n.disk, n.world) ≡ swept order at now cancelled m
        → Step m n
    -- a tick of the loop of a job
    tick :
        (job : Job W) (at : Readings)
        → Mem job jobs
        → m.now ≤ at.guard_at
        → at.guard_at ≤ at.record_at
        → n.now ≡ at.record_at
        → n.disk ≡ (run_once (store_repository zone) g job at m.disk m.world).1
        → n.world ≡ (run_once (store_repository zone) g job at m.disk m.world).2
        → Step m n
    -- a tick of the loop of maintenance
    upkeep :
        (yesterday last_prune : ℕ)
        → m.now ≤ n.now
        → n.disk ≡ (maintain (store_repository zone) cfg n.now yesterday last_prune m.disk).1
        → n.world ≡ m.world
        → Step m n

  pub data Reach (m : Moment W) : Moment W → Type 0 where
    here : Reach m m
    next : {n o : Moment W} → Reach m n → Step n o → Reach m o
