-- ===== src/Scheduler/Running/Logins/Lives.antt =====
-- The logins that the process really makes over its lives (Run and RunMaintenance of
-- internal/scheduler), against those that the store has recorded.
use is_ntust_down.Prelude.{ℕ, ◌+◌, ◌-◌, ◌≤◌, ap, String, List, [], ◌∷◌, arith, Bool-cases, inl, inr}
use mathlib.Core.List.Perm.{mem_iff}
use is_ntust_down.Scheduler.Days.{Moment}
use is_ntust_down.Scheduler.Running.{IsOrdered, Step, boot, tick, upkeep, Reach, here, next}
use is_ntust_down.Scheduler.Running.Others.{OnlyGuarded}
use is_ntust_down.Store.Schema.{Zone}
use is_ntust_down.Scheduler.OnStore.{Disk, store_repository}
use is_ntust_down.Scheduler.Guard.{day, Job, GuardConfig, Readings}
use is_ntust_down.Scheduler.Sweep.{MaintenanceConfig, sweep_unguarded}
use is_ntust_down.Scheduler.Upkeep.{attempts-maintain}
use is_ntust_down.Scheduler.Running.Failures.{failures-maintain}
use is_ntust_down.Scheduler.Running.Logins.{
  AllCounted, Accounted, run_once-Accounted, sweep_unguarded-Accounted, sweep_guarded-Accounted,
}

module _ {W : Type 0} (zone : Zone) (g : GuardConfig) (key : String) (logins : W → ℕ)
    (since : ℕ) where
  Step-Accounted :
      (cfg : MaintenanceConfig) (jobs : List (Job W)) (m n : Moment W)
      → AllCounted key logins jobs
      → OnlyGuarded key jobs
      → since ≤ m.now
      → zone.days_back cfg.raw_retention_days n.now ≤ since
      → Step zone g cfg jobs m n
      → Accounted zone g key logins since m.disk m.world n.disk n.world
  Step-Accounted cfg jobs m n c h l keep (boot order at now cancelled q o e) =
      let (d, w) = sweep_unguarded (store_repository zone) g at order m.disk m.world in
      rw (ap (λ (s : Disk × W). s.0) e, ap (λ (s : Disk × W). s.1) e)
        (omega (
          arith,
          sweep_unguarded-Accounted zone g key logins since at order m.disk m.world
              (λ job i. c job ((mem_iff q).0 i)) (λ job i. h job ((mem_iff q).0 i)),
          sweep_guarded-Accounted zone g key logins since at now cancelled jobs d w m.now n.now c l
              o,
        ))
  Step-Accounted cfg jobs m n c h l keep (tick job at i a b t d w) =
      rw (d, w)
        (run_once-Accounted zone g key logins since job at m.disk m.world (c job i)
          (λ same. omega (arith, a, b, l)))
  Step-Accounted cfg jobs m n c h l keep (upkeep yesterday last_prune a d w) =
      rw (d, w)
        (omega (
          arith,
          failures-maintain zone cfg n.now yesterday last_prune m.disk,
          attempts-maintain zone key since cfg n.now yesterday last_prune m.disk keep,
        ))

  IsOrdered-le :
      (at : Job W → Readings) (start stop : ℕ) (jobs : List (Job W))
      → IsOrdered at start jobs stop
      → start ≤ stop
  IsOrdered-le at start stop [] o = o
  IsOrdered-le at start stop (job ∷ jobs) o = elim (Bool-cases job.guarded) [
    | inr e ↦ IsOrdered-le at start stop jobs (rw e at o)
    | inl e ↦
        let (a, b, o') = (rw e at o) in
        omega (arith, a, b, IsOrdered-le at (at job).record_at stop jobs o')
  ]

  Step-le :
      (cfg : MaintenanceConfig) (jobs : List (Job W)) (m n : Moment W)
      → Step zone g cfg jobs m n
      → m.now ≤ n.now
  Step-le cfg jobs m n (boot order at now cancelled q o e) = IsOrdered-le at m.now n.now jobs o
  Step-le cfg jobs m n (tick job at i a b t d w) = omega (arith, a, b, t)
  Step-le cfg jobs m n (upkeep yesterday last_prune a d w) = a

  Reach-le :
      (cfg : MaintenanceConfig) (jobs : List (Job W)) {m n : Moment W}
      → Reach zone g cfg jobs m n
      → m.now ≤ n.now
  Reach-le cfg jobs here = omega arith
  Reach-le cfg jobs (next r s) = omega (arith, Reach-le cfg jobs r, Step-le cfg jobs _ _ s)

  -- Over 24 hours at most, the logins made and the calls that failed are no more than the attempts
  -- recorded since and the calls that were to fail.
  pub Reach-Accounted :
      (cfg : MaintenanceConfig) (jobs : List (Job W)) {m n : Moment W}
      → AllCounted key logins jobs
      → OnlyGuarded key jobs
      → ((now : ℕ) → zone.days_back cfg.raw_retention_days now ≤ now - day)
      → since ≤ m.now
      → n.now ≤ since + day
      → Reach zone g cfg jobs m n
      → Accounted zone g key logins since m.disk m.world n.disk n.world
  Reach-Accounted cfg jobs c h keep l u here = omega arith
  Reach-Accounted cfg jobs {n = o} c h keep l u (next {n} r s) =
      let later = Step-le cfg jobs n o s in
      omega (
        arith,
        Reach-Accounted cfg jobs c h keep l (omega (arith, later, u)) r,
        Step-Accounted cfg jobs n o c h (omega (arith, l, Reach-le cfg jobs r))
            (omega (arith, keep o.now, u)) s,
      )
