-- ===== src/Store/Rollup.antt =====
-- dayState, Rollup and Prune of internal/store/store.go; RollupHourly and PruneHourly of
-- internal/store/hourly.go.
pub mod Recompute
pub mod Agreement
use is_ntust_down.Prelude.{
  ℕ, ◌+◌, ◌-◌, ◌*◌, ◌/◌, ◌%◌, String, Bool, Option, none, some, List, [], ◌∷◌, map, not, ◌&&◌,
  count_by, filter_by, any_by, ltb, leb, ◌==◌, same_key, nat_key, text_key, pair_key, if◌then◌else◌,
}
use is_ntust_down.Probe.{State, up, degraded, down, unknown, retired, same_state}
use is_ntust_down.Store.Schema.{CheckResult, Counts, Share, BucketRow, Db, Zone, conclusive}
use is_ntust_down.Store.Table.{Table, upsert}

unfoldable pub day_state : Counts → State
day_state c =
    if conclusive c == 0 && ltb 0 c.retireds
    then retired
    else if conclusive c == 0
    then unknown
    else if c.downs == conclusive c
    then down
    else if ltb 0 c.downs
    then degraded
    else if ltb 0 c.degradeds
    then degraded
    else up

-- COUNT(*) FILTER (WHERE state = …) for each state
abbrev pub tally_rows : List CheckResult → Counts
tally_rows rows = record {
  ups = count_by (λ r. same_state r.state up) rows;
  degradeds = count_by (λ r. same_state r.state degraded) rows;
  downs = count_by (λ r. same_state r.state down) rows;
  unknowns = count_by (λ r. same_state r.state unknown) rows;
  retireds = count_by (λ r. same_state r.state retired) rows;
}

-- ROUND(100.0 * up / conclusive, 2) as hundredths of a percent, half rounded up
abbrev rounded_share : ℕ → ℕ → Share
rounded_share ups total = record { num = (20000 * ups + total) / (2 * total); den = 10000 }

abbrev pub uptime_pct : Counts → Option Share
uptime_pct c = if conclusive c == 0 then none else some (rounded_share c.ups (conclusive c))

abbrev pub summarise : List CheckResult → BucketRow
summarise rows = let c = tally_rows rows in record { counts = c; uptime_pct = uptime_pct c }

-- INSERT … SELECT … WHERE selected GROUP BY check_key, bucket ON CONFLICT DO UPDATE
module _ (bucket_of : CheckResult → ℕ) where
  abbrev pub group_of : CheckResult → String × ℕ
  group_of r = (r.check_key, bucket_of r)

  abbrev pub in_group : String × ℕ → CheckResult → Bool
  in_group g r = same_key (group_of r) g

  unfoldable pub distinct_groups : List CheckResult → List (String × ℕ)
  distinct_groups [] = []
  distinct_groups (r ∷ rows) =
      let rest = distinct_groups rows in
      if any_by (same_key (group_of r)) rest then rest else group_of r ∷ rest

  unfoldable pub upsert_groups :
      List CheckResult
      → List (String × ℕ)
      → Table (String × ℕ) BucketRow
      → Table (String × ℕ) BucketRow
  upsert_groups rows [] t = t
  upsert_groups rows (g ∷ gs) t =
      upsert g (λ old. summarise (filter_by (in_group g) rows)) (upsert_groups rows gs t)

  unfoldable pub recompute :
      (CheckResult → Bool)
      → List CheckResult
      → Table (String × ℕ) BucketRow
      → Table (String × ℕ) BucketRow
  unfolding distinct_groups upsert_groups
  recompute selected results t =
      let rows = filter_by selected results in upsert_groups rows (distinct_groups rows) t

module _ (zone : Zone) where
  abbrev pub day_bucket : CheckResult → ℕ
  day_bucket r = zone.day_of r.observed_at

  abbrev pub hour_bucket : CheckResult → ℕ
  hour_bucket r = zone.hour_of r.observed_at

  -- `days` are instants; their local dates are compared
  abbrev pub on_days : List ℕ → CheckResult → Bool
  on_days days r = any_by (λ d. d == day_bucket r) (map zone.day_of days)

  -- With no day the code returns before the statement, which would select no row.
  unfoldable pub rollup : List ℕ → Db → Db
  unfolding recompute
  rollup [] db = db
  rollup (d ∷ days) db = record db {
    check_daily = recompute day_bucket (on_days (d ∷ days)) db.check_results db.check_daily;
  }

  -- `Truncate(time.Hour)` cuts at whole hours of the epoch, which is one.
  abbrev pub hourly_since : ℕ → ℕ → ℕ
  hourly_since hours now = let t = now - hours * 3600000000000 in t - t % 3600000000000

  unfoldable pub rollup_hourly : ℕ → ℕ → Db → Db
  unfolding recompute
  rollup_hourly hours now db = record db {
    check_hourly =
        recompute hour_bucket (λ r. leb (hourly_since hours now) r.observed_at) db.check_results
          db.check_hourly;
  }

  -- DELETE FROM check_results
  unfoldable pub prune_results : ℕ → ℕ → Db → Db
  prune_results raw_days now db = record db {
    check_results =
        filter_by (λ r. not (ltb r.observed_at (zone.days_back raw_days now))) db.check_results;
  }

  -- DELETE FROM check_daily
  unfoldable pub prune_daily : ℕ → ℕ → Db → Db
  prune_daily daily_days now db = record db {
    check_daily = filter_by (λ b. not (ltb b.0.1 (zone.day_of now - daily_days))) db.check_daily;
  }

  unfoldable pub prune : ℕ → ℕ → ℕ → Db → Db
  prune raw_days daily_days now db = prune_daily daily_days now (prune_results raw_days now db)

  -- The cutoff keeps the minute of `now`, so an hour that began before it goes too.
  unfoldable pub prune_hourly : ℕ → ℕ → Db → Db
  prune_hourly days now db = record db {
    check_hourly =
        filter_by (λ b. not (ltb (60 * b.0.1) (zone.minute_of now - 1440 * days))) db.check_hourly;
  }
