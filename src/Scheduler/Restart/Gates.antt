-- ===== src/Scheduler/Restart/Gates.antt =====
-- What the second phase of the initial sweep (internal/scheduler/scheduler.go) finds of the first.
use is_ntust_down.Prelude.{
  ℕ, ◌≡◌, refl, ap, ◌∙◌, String, false, Option, some, List, [], ◌∷◌, ◌++◌, eq_refl, text_key,
  Bool-cases, inl, inr,
}
use is_ntust_down.Probe.{Result}
use is_ntust_down.Store.Schema.{Db, Zone, Current, CurrentRow}
use is_ntust_down.Store.Table.{Table, lookup, upsert, lookup-upsert}
use is_ntust_down.Store.Live.{record_result, current_states, scan_current, refreshed}
use is_ntust_down.Scheduler.OnStore.{Disk}
use is_ntust_down.Scheduler.Sweep.{sweep_unguarded}
use is_ntust_down.Scheduler.Guard.{Job, GuardConfig, Readings}
use is_ntust_down.Scheduler.Restart.{
  scanned, lookup-scan_current, is_unguarded_key, first_phase, after_first, first_phase-guarded,
  first_phase-unguarded, lookup-first_phase,
}

lookup-own :
    (key : String) (row : Option CurrentRow → CurrentRow) (t : Table String CurrentRow)
    → lookup key (upsert key row t) ≡ some (row (lookup key t))
lookup-own key row t = lookup-upsert key key row t ∙ rw (eq_refl key) refl

lookup-recorded :
    (key : String) (res : Result) (now : ℕ) (db : Db)
    → lookup key (current_states (record_result key res now db))
      ≡ some (scan_current (key, refreshed res now (lookup key db.check_current))).1
unfolding record_result current_states
lookup-recorded key res now db =
    lookup-scan_current key (record_result key res now db).check_current
    ∙ ap (scanned key) (lookup-own key (refreshed res now) db.check_current)

module _ {W : Type 0} (zone : Zone) (g : GuardConfig) (at : Job W → Readings) where
  -- The state of a check as the store has it is that of the job's run in a world, recorded when it
  -- ended.
  abbrev pub IsOf : W → Job W → Option Current → Type 0
  IsOf w job found =
      (c : Current) × (found ≡ some c)
      × (c.state ≡ (job.run w).0.state)
      × (c.last_checked_at ≡ (at job).record_at)

  -- On a working database, whatever was stored before: once the first phase of the initial sweep is
  -- over, the state that the gate of a guarded check reads for a check of the first phase is that of the
  -- run that the sweep has just made of it, in the world that the jobs before it have left, where no
  -- later job of the phase has its key.
  pub first_phase-IsOf :
      (before after : List (Job W)) (job : Job W) (db : Db) (w : W)
      → job.guarded ≡ false
      → is_unguarded_key zone g at job.key after ≡ false
      → IsOf (first_phase zone g at before db w).1 job (
          lookup job.key (current_states (first_phase zone g at (before ++ job ∷ after) db w).0.db))
  unfolding sweep_unguarded
  first_phase-IsOf [] after job db w h k = (
    (scan_current
        (job.key, refreshed (job.run w).0 (at job).record_at (lookup job.key db.check_current))).1,
    ap (λ (t : Disk × W). lookup job.key (current_states t.0.db))
          (first_phase-unguarded zone g at job after db w h)
        ∙ lookup-first_phase zone g at job.key after (after_first zone g at job db w) (job.run w).1
            k
        ∙ lookup-recorded job.key (job.run w).0 (at job).record_at db,
    refl,
    refl,
  )
  first_phase-IsOf (first ∷ before) after job db w h k = elim (Bool-cases first.guarded) [
    | inl e ↦
        rw
          (
            first_phase-guarded zone g at first (before ++ job ∷ after) db w e,
            first_phase-guarded zone g at first before db w e,
          )
          (first_phase-IsOf before after job db w h k)
    | inr e ↦
        rw
          (
            first_phase-unguarded zone g at first (before ++ job ∷ after) db w e,
            first_phase-unguarded zone g at first before db w e,
          )
          (first_phase-IsOf before after job (after_first zone g at first db w) (first.run w).1 h k)
  ]
