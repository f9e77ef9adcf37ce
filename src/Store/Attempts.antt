-- ===== src/Store/Attempts.antt =====
-- CountAttemptsSince of internal/store/breaker.go after each write that the scheduler makes.
use is_ntust_down.Prelude.{
  ℕ, suc, ◌≤◌, ◌≡◌, refl, String, not, ◌&&◌, List, [], ◌∷◌, count_by, ltb, leb, arith, filter_by,
  str_eq, if◌then◌else◌,
}
use is_ntust_down.Probe.{unknown, same_state, Result}
use is_ntust_down.Store.Schema.{CheckResult, Db, Zone, BreakerRecord}
use is_ntust_down.Store.Live.{is_attempt, record_result, save_breaker, count_attempts_since}
use is_ntust_down.Store.Rollup.{rollup, rollup_hourly, prune_results, prune_daily, prune_hourly}

pub count_attempts_since-record_result :
    (key j : String) (res : Result) (now since : ℕ) (db : Db)
    → count_attempts_since key since (record_result j res now db) ≡ (
        if str_eq j key && leb since now && not (same_state res.state unknown)
        then suc (count_attempts_since key since db)
        else count_attempts_since key since db)
unfolding count_attempts_since record_result
count_attempts_since-record_result key j res now since db = refl

count_attempts_since-save_breaker :
    (key : String) (rec : BreakerRecord) (since : ℕ) (db : Db)
    → count_attempts_since key since (save_breaker rec db) ≡ count_attempts_since key since db
unfolding count_attempts_since save_breaker
count_attempts_since-save_breaker key rec since db = refl

count-is_attempt_antitone :
    (key : String) (s t : ℕ) (rows : List CheckResult)
    → s ≤ t
    → count_by (is_attempt key t) rows ≤ count_by (is_attempt key s) rows
count-is_attempt_antitone key s t [] h = omega arith
count-is_attempt_antitone key s t (r ∷ rows) h =
    ground (arith, count-is_attempt_antitone key s t rows h)

-- A shorter window holds no more attempts.
pub count_attempts_since_antitone :
    (key : String) (s t : ℕ) (db : Db)
    → s ≤ t
    → count_attempts_since key t db ≤ count_attempts_since key s db
unfolding count_attempts_since
count_attempts_since_antitone key s t db h = count-is_attempt_antitone key s t db.check_results h

count-is_attempt-filter_by :
    (key : String) (since cutoff : ℕ) (rows : List CheckResult)
    → cutoff ≤ since
    → count_by (is_attempt key since) (filter_by (λ r. not (ltb r.observed_at cutoff)) rows)
      ≡ count_by (is_attempt key since) rows
count-is_attempt-filter_by key since cutoff [] h = refl
count-is_attempt-filter_by key since cutoff (r ∷ rows) h =
    ground (arith, count-is_attempt-filter_by key since cutoff rows h)

-- Pruning raw results does not touch the attempts of a window that begins after its cutoff.
pub count_attempts_since-prune_results :
    (zone : Zone) (key : String) (days now since : ℕ) (db : Db)
    → zone.days_back days now ≤ since
    → count_attempts_since key since (prune_results zone days now db)
      ≡ count_attempts_since key since db
unfolding count_attempts_since prune_results
count_attempts_since-prune_results zone key days now since db h =
    count-is_attempt-filter_by key since (zone.days_back days now) db.check_results h

-- The other maintenance statements leave the raw results alone.
pub check_results-maintenance :
    (zone : Zone) (d now : ℕ) (days : List ℕ) (db : Db)
    → ((rollup zone days db).check_results ≡ db.check_results)
      × ((rollup_hourly zone d now db).check_results ≡ db.check_results)
      × ((prune_daily zone d now db).check_results ≡ db.check_results)
      × ((prune_hourly zone d now db).check_results ≡ db.check_results)
unfolding rollup rollup_hourly prune_daily prune_hourly
check_results-maintenance zone d now [] db = (refl, refl, refl, refl)
check_results-maintenance zone d now (x ∷ xs) db = (refl, refl, refl, refl)
