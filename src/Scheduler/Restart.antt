-- ===== src/Scheduler/Restart.antt =====
-- What the initial sweep of internal/scheduler/scheduler.go does when the process starts again soon.
pub mod Gates
use is_ntust_down.Prelude.{
  ℕ, ◌≡◌, refl, sym, ap, ◌∙◌, String, Bool, true, false, ◌&&◌, not, any_by, Option, none, some,
  List, [], ◌∷◌, map, eq_iff, str_eq, text_key, arith, Bool-cases, inl, inr, if◌then◌else◌,
}
use is_ntust_down.Probe.{Result}
use is_ntust_down.Store.Schema.{Db, Zone, Current, CurrentRow}
use is_ntust_down.Store.Table.{Table, lookup, lookup-upsert}
use is_ntust_down.Store.Live.{record_result, current_states, scan_current, refreshed}
use is_ntust_down.Scheduler.OnStore.{Disk, store_repository}
use is_ntust_down.Scheduler.Guard.{
  Job, GuardConfig, Readings, run_once, probe_and_record, record_outcome,
}
use is_ntust_down.Scheduler.Sweep.{
  is_fresh, has_fresh_result, sweep_unguarded, sweep_guarded, run_initial_sweep,
}
use is_ntust_down.Scheduler.Pauses.{working}

abbrev pub scanned : String → Option CurrentRow → Option Current
scanned key none = none
scanned key (some row) = some (scan_current (key, row)).1

pub lookup-scan_current :
    (key : String) (t : Table String CurrentRow)
    → lookup key (map scan_current t) ≡ scanned key (lookup key t)
unfolding lookup
lookup-scan_current key [] = refl
lookup-scan_current key ((j, row) ∷ t) = ground (
  arith,
  lookup-scan_current key t,
  eq_iff j key,
  ap (λ (k : String). (scan_current (k, row)).1) {x = j} {y = key},
)

-- what a check's current state is read as is not changed by results of another check
lookup-record_result :
    (key j : String) (res : Result) (now : ℕ) (db : Db)
    → str_eq j key ≡ false
    → lookup key (current_states (record_result j res now db)) ≡ lookup key (current_states db)
unfolding record_result current_states
lookup-record_result key j res now db h =
    lookup-scan_current key (record_result j res now db).check_current
    ∙ ap (scanned key) (lookup-upsert key j (refreshed res now) db.check_current ∙ rw h refl)
    ∙ sym (lookup-scan_current key db.check_current)

spared :
    {A : Type 0} (guarded cancelled fresh : Bool) (before after : A)
    → (guarded ≡ true → fresh ≡ true)
    → (if guarded then (if cancelled then before else if fresh then before else after) else before)
      ≡ before
spared false cancelled fresh before after h = refl
spared true true fresh before after h = refl
spared true false fresh before after h = rw (h refl) refl

module _ {W : Type 0} (zone : Zone) (g : GuardConfig) (at : Job W → Readings) where
  run_once-unguarded :
      (job : Job W) (db : Db) (w : W)
      → job.guarded ≡ false
      → run_once (store_repository zone) g job (at job) (working db) w ≡ (
        (job.run w).0,
        working (record_result job.key (job.run w).0 (at job).record_at db),
        (job.run w).1,
      )
  unfolding run_once probe_and_record record_outcome store_repository
  run_once-unguarded job db w h = rw h refl

  -- whether a key is that of a job of the first phase
  abbrev pub is_unguarded_key : String → List (Job W) → Bool
  is_unguarded_key key = any_by λ job. not job.guarded && str_eq job.key key

  abbrev pub first_phase : List (Job W) → Db → W → Disk × W
  first_phase jobs db w = sweep_unguarded (store_repository zone) g at jobs (working db) w

  abbrev pub after_first : Job W → Db → W → Db
  after_first job db w = record_result job.key (job.run w).0 (at job).record_at db

  pub first_phase-guarded :
      (job : Job W) (jobs : List (Job W)) (db : Db) (w : W)
      → job.guarded ≡ true
      → first_phase (job ∷ jobs) db w ≡ first_phase jobs db w
  unfolding sweep_unguarded
  first_phase-guarded job jobs db w h = rw h refl

  pub first_phase-unguarded :
      (job : Job W) (jobs : List (Job W)) (db : Db) (w : W)
      → job.guarded ≡ false
      → first_phase (job ∷ jobs) db w ≡ first_phase jobs (after_first job db w) (job.run w).1
  unfolding sweep_unguarded
  first_phase-unguarded job jobs db w h = rw (run_once-unguarded job db w h) (rw h refl)

  first_phase-working :
      (jobs : List (Job W)) (db : Db) (w : W)
      → (first_phase jobs db w).0 ≡ working (first_phase jobs db w).0.db
  unfolding sweep_unguarded
  first_phase-working [] db w = refl
  first_phase-working (job ∷ jobs) db w = elim (Bool-cases job.guarded) [
    | inl h ↦ rw (first_phase-guarded job jobs db w h) (first_phase-working jobs db w)
    | inr h ↦
        rw (first_phase-unguarded job jobs db w h)
          (first_phase-working jobs (after_first job db w) (job.run w).1)
  ]

  pub lookup-first_phase :
      (key : String) (jobs : List (Job W)) (db : Db) (w : W)
      → is_unguarded_key key jobs ≡ false
      → lookup key (current_states (first_phase jobs db w).0.db) ≡ lookup key (current_states db)
  unfolding sweep_unguarded
  lookup-first_phase key [] db w k = refl
  lookup-first_phase key (job ∷ jobs) db w k = elim (Bool-cases job.guarded) [
    | inl h ↦
        rw (first_phase-guarded job jobs db w h) (lookup-first_phase key jobs db w (ground arith))
    | inr h ↦ rw (first_phase-unguarded job jobs db w h) (
        lookup-first_phase key jobs (after_first job db w) (job.run w).1 (ground arith)
        ∙ lookup-record_result key job.key (job.run w).0 (at job).record_at db (ground arith))
  ]

  module _ (now : Job W → ℕ) where
    -- Each guarded job of a list has a conclusive result that is newer than its interval, and its key
    -- is not that of a job of the first phase.
    abbrev pub AllFresh : List (Job W) → List (Job W) → Db → Type 0
    AllFresh jobs [] db = Unit
    AllFresh jobs (job ∷ rest) db =
        (job.guarded ≡ true
          → (is_fresh (now job) job.interval (lookup job.key (current_states db)) ≡ true)
            × (is_unguarded_key job.key jobs ≡ false))
        × AllFresh jobs rest db

    AllFresh-first_phase :
        (jobs rest : List (Job W)) (db : Db) (w : W)
        → AllFresh jobs rest db
        → AllFresh jobs rest (first_phase jobs db w).0.db
    AllFresh-first_phase jobs [] db w f = tt
    AllFresh-first_phase jobs (job ∷ rest) db w f = (
      λ h. let (fresh, own) = f.0 h in (rw (lookup-first_phase job.key jobs db w own) fresh, own),
      AllFresh-first_phase jobs rest db w f.1,
    )

    second_phase-AllFresh :
        (cancelled : Job W → Bool) (jobs rest : List (Job W)) (db : Db) (w : W)
        → AllFresh jobs rest db
        → sweep_guarded (store_repository zone) g at now cancelled rest (working db) w
          ≡ (working db, w)
    unfolding sweep_guarded has_fresh_result store_repository
    second_phase-AllFresh cancelled jobs [] db w f = refl
    second_phase-AllFresh cancelled jobs (job ∷ rest) db w f =
        let repo = store_repository zone in
        let after = run_once repo g job (at job) (working db) w in
        ap (λ (t : Disk × W). sweep_guarded repo g at now cancelled rest t.0 t.1)
          (spared job.guarded (cancelled job)
            (is_fresh (now job) job.interval (lookup job.key (current_states db))) (working db, w)
            (after.1, after.2) (λ h. (f.0 h).0))
        ∙ second_phase-AllFresh cancelled jobs rest db w f.1

    -- On a working database, where each guarded check has a conclusive result that is newer than its
    -- interval and its key is not that of an unguarded one, the initial sweep after a restart does no
    -- more than its first phase, which runs the unguarded probes.
    pub run_initial_sweep-AllFresh :
        (cancelled : Job W → Bool) (jobs : List (Job W)) (db : Db) (w : W)
        → AllFresh jobs jobs db
        → run_initial_sweep (store_repository zone) g at now cancelled jobs (working db) w
          ≡ sweep_unguarded (store_repository zone) g at jobs (working db) w
    unfolding run_initial_sweep
    run_initial_sweep-AllFresh cancelled jobs db w f =
        let first = first_phase jobs db w in
        let same = first_phase-working jobs db w in
        ap (λ d. sweep_guarded (store_repository zone) g at now cancelled jobs d first.1) same
        ∙ second_phase-AllFresh cancelled jobs jobs first.0.db first.1
            (AllFresh-first_phase jobs jobs db w f)
        ∙ ap (λ d. (d, first.1)) (sym same)
