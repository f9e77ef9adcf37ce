-- ===== src/Examples/Stored.antt =====
-- What the store (internal/store) makes of a small database.
use is_ntust_down.Prelude.{
  ◌≡◌, refl, [], ◌∷◌, some, arith, get_elem?, text_key, nat_key, pair_key, filter_by, length,
}
use is_ntust_down.Probe.{up, derive_service_state, up_result}
use is_ntust_down.Store.Schema.{empty_db, Bucket}
use is_ntust_down.Store.Table.{lookup, upsert}
use is_ntust_down.Store.Live.{record_result}
use is_ntust_down.Store.Since.{Live, record_result-Live, empty_db-Live}
use is_ntust_down.Store.Rollup.{
  day_state, tally_rows, recompute, rollup, summarise, in_group, day_bucket,
}
use is_ntust_down.Store.Rollup.Recompute.{rollup-rollup}
use is_ntust_down.Store.Rollup.Agreement.{day_state-derive_service_state}
use is_ntust_down.Store.History.Newest.{hourly_history_lem}
use is_ntust_down.Store.History.{current_hour_bucket, hourly_history, daily_history, bucket_of_row}
use is_ntust_down.Store.History.Shown.{daily_history-rollup}
use is_ntust_down.Examples.Schedule.{utc, page_up}

record_result-Live_example : Live page_up
record_result-Live_example =
    record_result-Live "moodle.sso_page" (up_result 1 200) 1 empty_db empty_db-Live

rollup-rollup_example :
    lookup ("moodle.sso_page", 0) (rollup utc (1 ∷ []) (rollup utc (1 ∷ []) page_up)).check_daily
    ≡ lookup ("moodle.sso_page", 0) (rollup utc (1 ∷ []) page_up).check_daily
rollup-rollup_example = rollup-rollup utc (1 ∷ []) page_up ("moodle.sso_page", 0)

abbrev page_day : Bucket
page_day =
    bucket_of_row 0 (
      summarise
        (filter_by (in_group (day_bucket utc) ("moodle.sso_page", 0)) page_up.check_results))

shown : daily_history utc 1 5 (rollup utc (1 ∷ []) page_up) "moodle.sso_page" ≡ some (page_day ∷ [])
unfolding daily_history rollup record_result upsert lookup recompute
shown = refl

daily_history-rollup_example : get_elem? (page_day ∷ []) 0 ≡ some page_day
unfolding record_result
daily_history-rollup_example =
    daily_history-rollup utc (1 ∷ []) 1 5 page_up "moodle.sso_page" (page_day ∷ []) shown 0
      (omega arith) (omega arith) refl

day_state-derive_service_state_example : day_state (tally_rows page_up.check_results) ≡ up
unfolding record_result derive_service_state
day_state-derive_service_state_example = day_state-derive_service_state page_up.check_results

abbrev page_hour : Bucket
page_hour = record {
  start = 0;
  state = up;
  uptime_pct = some (record { num = 1; den = 1 });
  counts = record { ups = 1; degradeds = 0; downs = 0; unknowns = 0; retireds = 0 };
}

shown_hour : hourly_history utc 1 5 page_up "moodle.sso_page" ≡ some (page_hour ∷ [])
unfolding hourly_history record_result day_state
shown_hour = refl

hourly_history_lem_example :
    (length (page_hour ∷ []) ≡ 1) × (get_elem? (page_hour ∷ []) 0 ≡ some page_hour)
unfolding current_hour_bucket record_result day_state
hourly_history_lem_example =
    hourly_history_lem utc 1 5 page_up "moodle.sso_page" (page_hour ∷ []) page_hour shown_hour
      (omega arith) (omega arith) refl
