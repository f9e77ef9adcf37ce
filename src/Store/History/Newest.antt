-- ===== src/Store/History/Newest.antt =====
-- What HourlyHistory of internal/store/hourly.go shows of the hour in progress.
use is_ntust_down.Prelude.{
  ℕ, ◌+◌, ◌-◌, ◌*◌, ◌≤◌, ◌<◌, ◌≡◌, String, Option, some, List, get_elem?, length, filter_by, arith,
  ap,
}
use is_ntust_down.Store.Schema.{Bucket, Db, Zone}
use is_ntust_down.Store.History.{
  hour, hourly_history, current_hour_bucket, hour_cell, in_window, length-series, get_elem?-series,
}

-- A check's hourly history, where there is one, has a cell for each of the hours asked for, and the
-- last of them is made from the raw results of the hour in progress, if there are any and the window
-- begins at the epoch or later.
pub hourly_history_lem :
    (zone : Zone)
    → (hours now : ℕ) → (db : Db) → (key : String) → (cells : List Bucket) → (live : Bucket)
    → hourly_history zone hours now db key ≡ some cells
    → 0 < hours
    → (hours - 1) * hour ≤ zone.hour_start now
    → current_hour_bucket zone (zone.hour_start now) db key ≡ some live
    → (length cells ≡ hours) × (get_elem? cells (hours - 1) ≡ some live)
unfolding hourly_history
hourly_history_lem zone hours now db key cells live h p inside fresh =
    let end = zone.hour_start now in
    let start = end - (hours - 1) * hour in
    let rows = filter_by (in_window key (zone.hour_of start) (zone.hour_of end)) db.check_hourly in
    let at = λ (i : ℕ). hour_cell zone rows (some live) end key (start + i * hour) in
    ground (
      arith,
      ap (λ (o : Option Bucket). hour_cell zone rows o end key) fresh,
      length-series at 0 hours,
      get_elem?-series at 0 hours (hours - 1),
      ap zone.hour_of {x = start + (hours - 1) * hour} {y = end},
    )
