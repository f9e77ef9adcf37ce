-- ===== src/Scheduler/Sweep.antt =====
-- RunInitialSweep, hasFreshResult and runJob of internal/scheduler/scheduler.go, and
-- internal/scheduler/maintenance.go.
use is_ntust_down.Prelude.{
  ℕ, ◌-◌, String, Bool, false, Option, none, some, List, [], ◌∷◌, ltb, text_key, if◌then◌else◌,
}
use is_ntust_down.Probe.{unknown, same_state, Result}
use is_ntust_down.Store.Schema.{Current}
use is_ntust_down.Store.Table.{lookup}
use is_ntust_down.Scheduler.Repository.{Repository}
use is_ntust_down.Scheduler.Guard.{Job, GuardConfig, Readings, run_once, record_outcome}

-- `now.Sub(c.LastCheckedAt) < job.Interval` of a conclusive result
abbrev pub is_fresh : ℕ → ℕ → Option Current → Bool
is_fresh now interval none = false
is_fresh now interval (some c) =
    if same_state c.state unknown then false else ltb (now - c.last_checked_at) interval

pub record MaintenanceConfig : Type 0 where
  pub raw_retention_days : ℕ
  pub daily_retention_days : ℕ
  pub hourly_retention_days : ℕ
  pub history_hours : ℕ

-- an outcome that another goroutine records, and when
pub record Outcome : Type 0 where
  pub key : String
  pub result : Result
  pub at : ℕ

-- a round of maintenance: the clock, `now.AddDate(0, 0, -1)`, and what was recorded since the last one
pub record Round : Type 0 where
  pub now : ℕ
  pub yesterday : ℕ
  pub recorded : List Outcome

abbrev pub prune_every : ℕ
prune_every = 3600000000000

module _ {S : Type 0} (repo : Repository S) where
  unfoldable pub has_fresh_result : {W : Type 0} → Job W → ℕ → S → Bool × S
  has_fresh_result job now s =
      let (current, s') = repo.current_states s in
      (
        elim current [
          | none ↦ false
          | some states ↦ is_fresh now job.interval (lookup job.key states)
        ],
        s',
      )

  -- The loop of runJob: one cycle for each tick, until the context ends.
  unfoldable pub run_job :
      {W : Type 0} → GuardConfig → Job W → List Readings → S → W → List Result × S × W
  run_job g job [] s w = ([], s, w)
  run_job g job (at ∷ ticks) s w =
      let (res, s', w') = run_once repo g job at s w in
      let (results, s'', w'') = run_job g job ticks s' w' in (res ∷ results, s'', w'')

  -- The first phase, in the order in which the concurrent runs come to their ends.
  unfoldable pub sweep_unguarded :
      {W : Type 0} → GuardConfig → (Job W → Readings) → List (Job W) → S → W → S × W
  sweep_unguarded g at [] s w = (s, w)
  sweep_unguarded g at (job ∷ jobs) s w =
      let (res, s', w') = run_once repo g job (at job) s w in
      let (t, v) = if job.guarded then (s, w) else (s', w') in sweep_unguarded g at jobs t v

  -- The second phase. `now` is when the freshness of a job is judged, and `cancelled` whether the
  -- context has ended by its turn.
  unfoldable pub sweep_guarded :
      {W : Type 0}
      → GuardConfig
      → (Job W → Readings)
      → (Job W → ℕ)
      → (Job W → Bool)
      → List (Job W)
      → S
      → W
      → S × W
  unfolding has_fresh_result
  sweep_guarded g at now cancelled [] s w = (s, w)
  sweep_guarded g at now cancelled (job ∷ jobs) s w =
      let (fresh, s') = has_fresh_result job (now job) s in
      let (res, s'', w') = run_once repo g job (at job) s' w in
      let (t, v) =
        if job.guarded
        then (if cancelled job then (s, w) else if fresh then (s', w) else (s'', w'))
        else (s, w) in
      sweep_guarded g at now cancelled jobs t v

  unfoldable pub run_initial_sweep :
      {W : Type 0}
      → GuardConfig
      → (Job W → Readings)
      → (Job W → ℕ)
      → (Job W → Bool)
      → List (Job W)
      → S
      → W
      → S × W
  unfolding sweep_unguarded sweep_guarded
  run_initial_sweep g at now cancelled jobs s w =
      let (s', w') = sweep_unguarded g at jobs s w in sweep_guarded g at now cancelled jobs s' w'

  -- `last_prune` is lastPrune; `yesterday` is `now.AddDate(0, 0, -1)`. The new lastPrune comes back.
  unfoldable pub maintain : MaintenanceConfig → ℕ → ℕ → ℕ → S → ℕ × S
  maintain cfg now yesterday last_prune s =
      let (_, s₁) = repo.rollup (now ∷ yesterday ∷ []) s in
      let (_, s₂) = repo.rollup_hourly cfg.history_hours now s₁ in
      let (_, s₃) = repo.prune cfg.raw_retention_days cfg.daily_retention_days now s₂ in
      let (_, s₄) = repo.prune_hourly cfg.hourly_retention_days now s₃ in
      if ltb (now - last_prune) prune_every then (last_prune, s₂) else (now, s₄)

  unfoldable pub record_all : List Outcome → S → S
  record_all [] s = s
  record_all (o ∷ outcomes) s = record_all outcomes (record_outcome repo o.key o.result o.at s)

  -- RunMaintenance: a round at once and one for each tick
  unfoldable pub run_maintenance : MaintenanceConfig → List Round → ℕ → S → ℕ × S
  unfolding maintain record_all
  run_maintenance cfg [] last_prune s = (last_prune, s)
  run_maintenance cfg (r ∷ rounds) last_prune s =
      let (last_prune', s') = maintain cfg r.now r.yesterday last_prune (record_all r.recorded s) in
      run_maintenance cfg rounds last_prune' s'
