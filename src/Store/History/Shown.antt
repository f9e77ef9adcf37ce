-- ===== src/Store/History/Shown.antt =====
-- What the daily history of internal/store/store.go shows of the raw results once Rollup has run.
use is_ntust_down.Prelude.{
  ℕ, ◌+◌, ◌-◌, ◌≤◌, ◌<◌, ◌≡◌, String, true, some, List, get_elem?, ◌&&◌, filter_by, arith, pair_key,
  text_key, nat_key,
}
use is_ntust_down.Store.Schema.{Bucket, Db, Zone}
use is_ntust_down.Store.Rollup.{rollup, summarise, in_group, day_bucket}
use is_ntust_down.Store.Rollup.Recompute.{listed, touched, lookup-rollup}
use is_ntust_down.Store.History.{daily_history, daily_history_lem, bucket_of_row}

-- Once a day of the window has been rolled up, its cell in a check's history is the summary of all the
-- stored results of that check on that day, if there are any and the window begins at day 0 or later.
pub daily_history-rollup :
    (zone : Zone)
    → (rolled : List ℕ) → (days now : ℕ) → (db : Db) → (key : String) → (cells : List Bucket)
    → daily_history zone days now (rollup zone rolled db) key ≡ some cells
    → (i : ℕ) → i < days
    → days - 1 ≤ zone.day_of now
    → let d = zone.day_of now - (days - 1) + i in
      listed zone rolled d && touched (day_bucket zone) (key, d) db.check_results ≡ true
      → get_elem? cells i
        ≡ some (
            bucket_of_row d
              (summarise (filter_by (in_group (day_bucket zone) (key, d)) db.check_results)))
daily_history-rollup zone rolled days now db key cells h i l inside fresh =
    let d = zone.day_of now - (days - 1) + i in
    ground (
      arith,
      (daily_history_lem zone days now (rollup zone rolled db) key cells h i l inside).1,
      lookup-rollup zone rolled db (key, d),
    )
