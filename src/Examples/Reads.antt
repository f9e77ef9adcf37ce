-- ===== src/Examples/Reads.antt =====
-- A page of a check that was up on the day before (internal/web/view.go on internal/store).
use is_ntust_down.Prelude.{ℕ, ◌+◌, ◌≡◌, refl, some, false, [], ◌∷◌, get_elem?, arith}
use is_ntust_down.Probe.{up_result}
use is_ntust_down.Store.Schema.{Db, empty_db}
use is_ntust_down.Store.Live.{record_result, current_states}
use is_ntust_down.Store.Rollup.{rollup}
use is_ntust_down.Store.History.{first_day, daily_history, hourly_history}
use is_ntust_down.Scheduler.OnStore.{Disk}
use is_ntust_down.Web.I18n.{en}
use is_ntust_down.Web.Shown.{PageView, ServiceView}
use is_ntust_down.Web.View.{build, cell_view, day_words}
use is_ntust_down.Web.Read.{stored_of, build_page}
use is_ntust_down.Web.Read.Days.{stored_days, build_page-days}
use is_ntust_down.Examples.Schedule.{utc}
use is_ntust_down.Examples.Pages.{format, options, api_service}

-- an instant of the third day, and one a day later
abbrev third_day : ℕ
third_day = 200000000000000

abbrev fourth_day : ℕ
fourth_day = 286400000000000

abbrev sampled : Db
sampled =
    rollup utc (third_day ∷ [])
      (record_result "querycourse.api" (up_result 1 200) third_day empty_db)

abbrev readable : Disk
readable = record { db = sampled; faults = false ∷ [] }

abbrev shown_page : PageView
shown_page = build en options (
    stored_of utc format options fourth_day (current_states sampled)
      (daily_history utc 2 fourth_day sampled) (hourly_history utc 3 fourth_day sampled))

is_shown : (build_page utc format options fourth_day en readable).0 ≡ some shown_page
unfolding build_page
is_shown = refl

build_page-days_example :
    (view : ServiceView) × (get_elem? shown_page.services 0 ≡ some view)
    × (get_elem? view.days 0
        ≡ some (
            cell_view (day_words format en) (utc.day_start (first_day utc 2 fourth_day + 0)) (
              stored_days utc fourth_day 2 sampled api_service.checks
                (first_day utc 2 fourth_day + 0))))
build_page-days_example =
    build_page-days utc format options fourth_day en readable shown_page 0 api_service 0 is_shown
      refl (omega arith) (omega arith)
