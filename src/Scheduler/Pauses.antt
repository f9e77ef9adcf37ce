-- ===== src/Scheduler/Pauses.antt =====
-- What a failed sign-in leads to over the next cycles (RunOnce, updateBreaker and pauseReason of
-- internal/scheduler/scheduler.go; RollupState of internal/probe/probe.go), on a working database.
use is_ntust_down.Prelude.{
  ℕ, ◌+◌, ◌*◌, ◌<◌, ◌≡◌, refl, ap, ◌∙◌, map, ◌∷◌, String, Bool, true, false, Option, none, some,
  List, [], arith, text_key, eq_refl,
}
use is_ntust_down.Probe.{
  State, down, unknown, ReasonCode, paused_after_failure, Result, bare_result,
}
use is_ntust_down.Store.Schema.{CheckResult, Db, Zone, BreakerRecord}
use is_ntust_down.Store.Table.{lookup-upsert}
use is_ntust_down.Store.Live.{load_breaker, save_breaker, record_result}
use is_ntust_down.Scheduler.Repository.{Repository}
use is_ntust_down.Scheduler.OnStore.{Disk, store_repository}
use is_ntust_down.Scheduler.Guard.{
  Job, GuardConfig, Readings, second, is_open, hard_auth_failure, failed_record, next_backoff,
  next_record, guard_blocks, update_breaker, record_outcome, probe_and_record, decline_or_probe,
  run_once, pause_reason,
}
use is_ntust_down.Scheduler.Sweep.{run_job}
use is_ntust_down.Scheduler.Lockout.{IsCleared, IsCleared-guard_blocks}

-- a database on which every call succeeds
abbrev pub working : Db → Disk
working db = record { db = db; faults = [] }

-- the raw results of a check once each of some ticks has found it paused after a failure
abbrev pub paused_rows : String → List Readings → List CheckResult → List CheckResult
paused_rows key [] rows = rows
paused_rows key (at ∷ ticks) rows = paused_rows key ticks (
    record {
      check_key = key;
      observed_at = at.record_at;
      state = unknown;
      latency_ms = none;
      http_status = none;
      reason_code = some paused_after_failure;
    }
    ∷ rows)

check_results-paused :
    (key : String) (now : ℕ) (db : Db)
    → (record_result key (bare_result unknown paused_after_failure) now db).check_results
      ≡ record {
        check_key = key;
        observed_at = now;
        state = unknown;
        latency_ms = none;
        http_status = none;
        reason_code = some paused_after_failure;
      }
        ∷ db.check_results
unfolding record_result
check_results-paused key now db = refl

abbrev pub saved : Option BreakerRecord → Db → Db
saved none db = db
saved (some rec) db = save_breaker rec db

-- what is saved is what is loaded
load_breaker-save_breaker :
    (key : String) (rec : BreakerRecord) (db : Db)
    → rec.check_key ≡ key
    → load_breaker key (save_breaker rec db) ≡ rec
unfolding load_breaker save_breaker
load_breaker-save_breaker key rec db h = rw (← h) (simp (lookup-upsert, eq_refl))

pub load_breaker-record_result :
    (key j : String) (res : Result) (now : ℕ) (db : Db)
    → load_breaker key (record_result j res now db) ≡ load_breaker key db
unfolding load_breaker record_result
load_breaker-record_result key j res now db = refl

-- Each tick of the list reads the clock before `until`.
abbrev pub Before : ℕ → List Readings → Type 0
Before until [] = Unit
Before until (at ∷ ticks) = (at.guard_at < until) × Before until ticks

is_open_before :
    {until now : ℕ} (rec : BreakerRecord)
    → rec.open_until ≡ some until
    → now < until
    → is_open rec now ≡ true
is_open_before rec h k = ground arith

paused_reason :
    (rec : BreakerRecord) → 0 < rec.consecutive_fails → pause_reason rec ≡ paused_after_failure
unfolding pause_reason
paused_reason rec h = ground arith

check_key-load_breaker : (key : String) (db : Db) → (load_breaker key db).check_key ≡ key
unfolding load_breaker
check_key-load_breaker key db = ground arith

failed_record-hard :
    (g : GuardConfig) (now : ℕ) (reason : ReasonCode) (rec : BreakerRecord)
    → hard_auth_failure reason ≡ true
    → let after = failed_record g now reason rec in
      (after.open_until ≡ some (now + next_backoff rec.backoff_seconds g * second))
      × (after.consecutive_fails ≡ rec.consecutive_fails + 1)
      × (after.check_key ≡ rec.check_key)
unfolding failed_record
failed_record-hard g now reason rec h = rw h (refl, refl, refl)

next_record-down :
    (g : GuardConfig) (now : ℕ) (s : State) (reason : ReasonCode) (rec : BreakerRecord)
    → s ≡ down
    → next_record g now s reason rec ≡ some (failed_record g now reason rec)
unfolding next_record
next_record-down g now s reason rec h = rw h

module _ (zone : Zone) {W : Type 0} (g : GuardConfig) (job : Job W) where
  abbrev repo : Repository Disk
  repo = store_repository zone

  update_breaker-working :
      (key : String) (res : Result) (now : ℕ) (db : Db)
      → update_breaker repo g key res now (working db)
        ≡ working (saved (next_record g now res.state res.reason_code (load_breaker key db)) db)
  unfolding update_breaker store_repository
  update_breaker-working key res now db = ground arith

  record_outcome-working :
      (key : String) (res : Result) (now : ℕ) (db : Db)
      → record_outcome repo key res now (working db) ≡ working (record_result key res now db)
  unfolding record_outcome store_repository
  record_outcome-working key res now db = refl

  guard_blocks-paused :
      (now : ℕ) (db : Db)
      → is_open (load_breaker job.key db) now ≡ true
      → guard_blocks repo g job now (working db)
        ≡ ((pause_reason (load_breaker job.key db), true), working db)
  unfolding guard_blocks store_repository
  guard_blocks-paused now db h = rw h

  guard_blocks-working :
      (now : ℕ) (db : Db) → (guard_blocks repo g job now (working db)).1 ≡ working db
  unfolding guard_blocks store_repository
  guard_blocks-working now db = ground arith

  decline_or_probe-passed :
      (at : Readings) (verdict : (ReasonCode × Bool) × Disk) (w : W)
      → verdict.0.1 ≡ false
      → decline_or_probe repo g job at verdict w ≡ probe_and_record repo g job at verdict.1 w
  decline_or_probe-passed at ((reason, true), disk) w h = cc
  decline_or_probe-passed at ((reason, false), disk) w h = refl

  probe_and_record-working :
      (at : Readings) (db : Db) (w : W)
      → job.guarded ≡ true
      → let (res, w') = job.run w in
        probe_and_record repo g job at (working db) w ≡ (
          res,
          working (
              record_result job.key res at.record_at (
                saved
                  (next_record g at.breaker_at res.state res.reason_code (load_breaker job.key db))
                  db)),
          w',
        )
  unfolding probe_and_record
  probe_and_record-working at db w hg = simp (hg, update_breaker-working, record_outcome-working)

  -- With a working database, a cleared cycle of a guarded job runs the probe once, moves the
  -- breaker on and records the outcome.
  run_once-cleared :
      (at : Readings) (db : Db) (w : W)
      → job.guarded ≡ true
      → IsCleared g job at.guard_at db
      → let (res, w') = job.run w in
        run_once repo g job at (working db) w ≡ (
          res,
          working (
              record_result job.key res at.record_at (
                saved
                  (next_record g at.breaker_at res.state res.reason_code (load_breaker job.key db))
                  db)),
          w',
        )
  unfolding run_once
  run_once-cleared at db w hg hc =
      let verdict = guard_blocks repo g job at.guard_at (working db) in
      let passed = IsCleared-guard_blocks zone g job at.guard_at db hc in
      simp (hg, decline_or_probe-passed at verdict w passed, guard_blocks-working at.guard_at db)
        (probe_and_record-working at db w hg)

  -- With a working database, an open breaker turns a cycle of a guarded job away: nothing is
  -- probed, and the outcome that is recorded says why.
  run_once-paused :
      (at : Readings) (db : Db) (w : W)
      → job.guarded ≡ true
      → is_open (load_breaker job.key db) at.guard_at ≡ true
      → let res = bare_result unknown (pause_reason (load_breaker job.key db)) in
        run_once repo g job at (working db) w
        ≡ (res, working (record_result job.key res at.record_at db), w)
  unfolding run_once
  run_once-paused at db w hg ho =
      simp (hg, guard_blocks-paused at.guard_at db ho, record_outcome-working)

  -- While the breaker is open after a failure, no tick reaches the probe.
  run_job-paused :
      (until : ℕ) (ticks : List Readings) (db : Db) (w : W)
      → job.guarded ≡ true
      → (load_breaker job.key db).open_until ≡ some until
      → 0 < (load_breaker job.key db).consecutive_fails
      → Before until ticks
      → let (results, disk, w') = run_job repo g job ticks (working db) w in
        (w' ≡ w)
        × (results ≡ map (λ at. bare_result unknown paused_after_failure) ticks)
        × (disk.db.check_results ≡ paused_rows job.key ticks db.check_results)
  unfolding run_job
  run_job-paused until [] db w hg ho hf hb = (refl, refl, refl)
  run_job-paused until (at ∷ ticks) db w hg ho hf hb =
      let res = bare_result unknown paused_after_failure in
      let db' = record_result job.key res at.record_at db in
      let why : pause_reason (load_breaker job.key db) ≡ paused_after_failure =
        paused_reason _ hf in
      let step : run_once repo g job at (working db) w ≡ (res, working db', w) =
        rw (← why)
          (run_once-paused at db w hg (is_open_before (load_breaker job.key db) ho hb.0)) in
      let same = load_breaker-record_result job.key job.key res at.record_at db in
      let rest =
        run_job-paused until ticks db' w hg (ap (λ r. r.open_until) same ∙ ho) (rw same hf) hb.1 in
      simp step (
        rest.0,
        ap (λ rs. res ∷ rs) rest.1,
        rest.2 ∙ ap (paused_rows job.key ticks) (check_results-paused job.key at.record_at db),
      )

  -- With a working database, when a cleared cycle of a guarded job ends in a rejected credential,
  -- the job is suspended at once: none of the ticks that follow before the backoff is over probes, each
  -- results in a pause after a failure, and each adds one raw result that says so to the stored ones.
  pub rejected-pauses :
      (at : Readings) (ticks : List Readings) (db : Db) (w : W)
      → job.guarded ≡ true
      → IsCleared g job at.guard_at db
      → (job.run w).0.state ≡ down
      → hard_auth_failure (job.run w).0.reason_code ≡ true
      → Before
          (at.breaker_at + next_backoff (load_breaker job.key db).backoff_seconds g * second)
          ticks
      → let (_, disk, w') = run_once repo g job at (working db) w in
        let (results, disk', w'') = run_job repo g job ticks disk w' in
        (w'' ≡ w')
        × (results ≡ map (λ at. bare_result unknown paused_after_failure) ticks)
        × (disk'.db.check_results ≡ paused_rows job.key ticks disk.db.check_results)
  rejected-pauses at ticks db w hg hc hd hr hb =
      let res = (job.run w).0 in
      let rec = load_breaker job.key db in
      let failed = failed_record g at.breaker_at res.reason_code rec in
      let db' = record_result job.key res at.record_at (save_breaker failed db) in
      let opened = failed_record-hard g at.breaker_at res.reason_code rec hr in
      let loaded : load_breaker job.key db' ≡ failed =
        load_breaker-record_result job.key job.key res at.record_at (save_breaker failed db)
        ∙ load_breaker-save_breaker job.key failed db
            (opened.2 ∙ check_key-load_breaker job.key db) in
      simp
        (
          run_once-cleared at db w hg hc,
          next_record-down g at.breaker_at res.state res.reason_code rec hd,
        )
        (run_job-paused _ ticks db' (job.run w).1 hg (ap (λ r. r.open_until) loaded ∙ opened.0)
          (rw loaded (omega (arith, opened.1))) hb)
