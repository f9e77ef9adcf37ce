-- ===== src/Scheduler/Retention.antt =====
-- How long raw results are kept by RunMaintenance (internal/scheduler/maintenance.go) on a working
-- database, with the results of the other goroutines in between.
use is_ntust_down.Prelude.{
  ℕ, ◌-◌, ◌≤◌, ◌<◌, ◌≡◌, refl, ap, ◌∙◌, String, not, ltb, List, [], ◌∷◌, count_by, filter_by, arith,
  Bool-cases, inl, inr, ◌⊎◌, if◌then◌else◌,
}
use is_ntust_down.Probe.{Result}
use is_ntust_down.Store.Schema.{CheckResult, Db, Zone}
use is_ntust_down.Store.Live.{record_result}
use is_ntust_down.Store.Rollup.{rollup, rollup_hourly, prune_results, prune_daily, prune_hourly}
use is_ntust_down.Store.Attempts.{check_results-maintenance}
use is_ntust_down.Scheduler.OnStore.{Disk, store_repository}
use is_ntust_down.Scheduler.Guard.{record_outcome}
use is_ntust_down.Scheduler.Sweep.{
  MaintenanceConfig, Outcome, Round, prune_every, maintain, record_all, run_maintenance,
}
use is_ntust_down.Scheduler.Pauses.{working}

-- how many raw results are older than an instant
abbrev pub stale : ℕ → Db → ℕ
stale cutoff db = count_by (λ (r : CheckResult). ltb r.observed_at cutoff) db.check_results

none_stale :
    (cutoff : ℕ) (rows : List CheckResult)
    → count_by
        (λ (r : CheckResult). ltb r.observed_at cutoff)
        (filter_by (λ (r : CheckResult). not (ltb r.observed_at cutoff)) rows)
      ≡ 0
none_stale cutoff [] = refl
none_stale cutoff (r ∷ rows) = ground (arith, none_stale cutoff rows)

stale-record_result :
    (key : String) (res : Result) (now cutoff : ℕ) (db : Db)
    → cutoff ≤ now
    → stale cutoff (record_result key res now db) ≡ stale cutoff db
unfolding record_result
stale-record_result key res now cutoff db h = ground (arith, h)

-- the database once some outcomes are recorded
abbrev recorded_in : List Outcome → Db → Db
recorded_in [] db = db
recorded_in (o ∷ outcomes) db = recorded_in outcomes (record_result o.key o.result o.at db)

abbrev pub AreAfter : ℕ → List Outcome → Type 0
AreAfter start [] = Unit
AreAfter start (o ∷ outcomes) = (start ≤ o.at) × AreAfter start outcomes

stale-recorded_in :
    (cutoff start : ℕ) (outcomes : List Outcome) (db : Db)
    → cutoff ≤ start
    → AreAfter start outcomes
    → stale cutoff (recorded_in outcomes db) ≡ stale cutoff db
stale-recorded_in cutoff start [] db h a = refl
stale-recorded_in cutoff start (o ∷ outcomes) db h (a, later) =
    stale-recorded_in cutoff start outcomes (record_result o.key o.result o.at db) h later
    ∙ stale-record_result o.key o.result o.at cutoff db (omega (arith, h, a))

-- each round comes after the one before, and so does what was recorded in between
abbrev pub AreRising : ℕ → List Round → Type 0
AreRising start [] = Unit
AreRising start (r ∷ rounds) = (start ≤ r.now) × AreAfter start r.recorded × AreRising r.now rounds

abbrev pub last_now : ℕ → List Round → ℕ
last_now start [] = start
last_now start (r ∷ rounds) = last_now r.now rounds

module _ (zone : Zone) (cfg : MaintenanceConfig) where
  record_all-working :
      (outcomes : List Outcome) (db : Db)
      → record_all (store_repository zone) outcomes (working db) ≡ working (recorded_in outcomes db)
  unfolding record_all store_repository record_outcome
  record_all-working [] db = refl
  record_all-working (o ∷ outcomes) db =
      record_all-working outcomes (record_result o.key o.result o.at db)

  -- the roll-ups of a round, and its deletions
  abbrev rolled : ℕ → ℕ → Db → Db
  rolled now yesterday db =
      rollup_hourly zone cfg.history_hours now (rollup zone (now ∷ yesterday ∷ []) db)

  abbrev pruned : ℕ → Db → Db
  pruned now db = prune_hourly zone cfg.hourly_retention_days now (
      prune_daily zone cfg.daily_retention_days now
        (prune_results zone cfg.raw_retention_days now db))

  maintain-working :
      (now yesterday last : ℕ) (db : Db)
      → maintain (store_repository zone) cfg now yesterday last (working db) ≡ (
          if ltb (now - last) prune_every
          then (last, working (rolled now yesterday db))
          else (now, working (pruned now (rolled now yesterday db))))
  unfolding maintain store_repository
  maintain-working now yesterday last db = refl

  abbrev cutoff : ℕ → ℕ
  cutoff last = zone.days_back cfg.raw_retention_days last

  stale-rolled : (c now yesterday : ℕ) (db : Db) → stale c (rolled now yesterday db) ≡ stale c db
  stale-rolled c now yesterday db = ap (count_by (λ (r : CheckResult). ltb r.observed_at c)) (
      (check_results-maintenance zone cfg.history_hours now []
        (rollup zone (now ∷ yesterday ∷ []) db)).1
      ∙ (check_results-maintenance zone 0 now (now ∷ yesterday ∷ []) db).0)

  stale-prune_results :
      (now : ℕ) (db : Db)
      → stale (cutoff now) (prune_results zone cfg.raw_retention_days now db) ≡ 0
  unfolding prune_results
  stale-prune_results now db = none_stale (cutoff now) db.check_results

  stale-pruned : (now : ℕ) (db : Db) → stale (cutoff now) (pruned now db) ≡ 0
  stale-pruned now db =
      let raw = prune_results zone cfg.raw_retention_days now db in
      let daily = prune_daily zone cfg.daily_retention_days now raw in
      ap (count_by (λ (r : CheckResult). ltb r.observed_at (cutoff now))) (
        (check_results-maintenance zone cfg.hourly_retention_days now [] daily).3
        ∙ (check_results-maintenance zone cfg.daily_retention_days now [] raw).2)
      ∙ stale-prune_results now db

  -- what holds after a round: the last deletion was less than the interval ago, and what was too old
  -- then is gone
  abbrev IsKept : ℕ → ℕ × Disk → Type 0
  IsKept now (last, disk) =
      (now - last < prune_every)
      × (last ≤ now)
      × (disk ≡ working disk.db)
      × (stale (cutoff last) disk.db ≡ 0)

  -- a round
  abbrev round : Round → ℕ → Disk → ℕ × Disk
  round r last disk =
      let repo = store_repository zone in
      maintain repo cfg r.now r.yesterday last (record_all repo r.recorded disk)

  round-IsKept :
      (r : Round) (start last : ℕ) (db : Db)
      → ((t : ℕ) → cutoff t ≤ t)
      → last ≤ start
      → start ≤ r.now
      → AreAfter start r.recorded
      → (stale (cutoff last) db ≡ 0) ⊎ (prune_every ≤ r.now - last)
      → IsKept r.now (round r last (working db))
  round-IsKept r start last db back l s a k =
      let db' = recorded_in r.recorded db in
      elim (Bool-cases (ltb (r.now - last) prune_every)) [
        | inl e ↦
            rw (record_all-working r.recorded db, maintain-working r.now r.yesterday last db', e)
              (
                ground (arith, e),
                omega (arith, l, s),
                refl,
                stale-rolled (cutoff last) r.now r.yesterday db'
                    ∙ stale-recorded_in (cutoff last) start r.recorded db
                        (omega (arith, back last, l)) a
                    ∙ elim k [ inl z ↦ z | inr y ↦ absurd (ground (arith, e, y)) ],
              )
        | inr e ↦
            rw (record_all-working r.recorded db, maintain-working r.now r.yesterday last db', e)
              (omega arith, omega arith, refl, stale-pruned r.now (rolled r.now r.yesterday db'))
      ]

  rounds-IsKept :
      (rounds : List Round) (start last : ℕ) (disk : Disk)
      → ((t : ℕ) → cutoff t ≤ t)
      → AreRising start rounds
      → IsKept start (last, disk)
      → IsKept
          (last_now start rounds)
          (run_maintenance (store_repository zone) cfg rounds last disk)
  unfolding run_maintenance
  rounds-IsKept [] start last disk back rising kept = kept
  rounds-IsKept (r ∷ rounds) start last disk back (s, a, rising) (d, l, same, k) =
      let (last', disk') = round r last disk in
      rounds-IsKept rounds r.now last' disk' back rising
        (rw same (round-IsKept r start last disk.db back l s a (inl k)))

  -- On a working database, whatever the other goroutines record in between, where an instant's cutoff
  -- is not after it: after the first round of maintenance and after every later one, raw results were
  -- last deleted less than an hour ago, and none is left that was too old then.
  pub run_maintenance-kept :
      (first : Round) (rounds : List Round) (db : Db)
      → ((t : ℕ) → zone.days_back cfg.raw_retention_days t ≤ t)
      → AreRising 0 (first ∷ rounds)
      → prune_every ≤ first.now
      → let (last, disk) =
          run_maintenance (store_repository zone) cfg (first ∷ rounds) 0 (working db) in
        (last_now 0 (first ∷ rounds) - last < prune_every)
        × (stale (zone.days_back cfg.raw_retention_days last) disk.db ≡ 0)
  unfolding run_maintenance
  run_maintenance-kept first rounds db back (s, a, rising) p =
      let (last', disk') = round first 0 (working db) in
      let (d, l, same, k) =
        rounds-IsKept rounds first.now last' disk' back rising
          (round-IsKept first 0 0 db back (omega arith) s a (inr (omega (arith, p)))) in
      (d, k)
