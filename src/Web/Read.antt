-- ===== src/Web/Read.antt =====
-- The reads of Build (internal/web/view.go) on the store of internal/store, and the starts of the
-- strips' cells. Nothing is written between the three reads of a page. Days are numbers, and `AddDate`
-- by a day is the next one.
pub mod Days
use is_ntust_down.Prelude.{ℕ, ◌+◌, ◌-◌, ◌*◌, String, Option, none, some, List, text_key}
use is_ntust_down.Store.Schema.{Db, Zone, Current, Bucket}
use is_ntust_down.Store.Table.{Table, lookup}
use is_ntust_down.Store.Live.{current_states}
use is_ntust_down.Store.History.{hour, first_day, daily_history, hourly_history}
use is_ntust_down.Scheduler.OnStore.{Disk, query}
use is_ntust_down.Web.Shown.{Options, Stored, PageView}
use is_ntust_down.Web.I18n.{Lang}
use is_ntust_down.Web.Labels.{Format}
use is_ntust_down.Web.View.{build}

module _ (zone : Zone) (format : Format) (opts : Options) (now : ℕ) where
  -- the start of a cell of buildStrip and of buildHourStrip
  abbrev pub day_at : ℕ → ℕ
  day_at i = zone.day_start (first_day zone opts.history_days now + i)

  abbrev pub hour_at : ℕ → ℕ
  hour_at i = zone.hour_start now - (opts.history_hours - 1) * hour + i * hour

  -- what a page is built from when every read succeeds
  abbrev pub stored_of :
      Table String Current
      → (String → Option (List Bucket))
      → (String → Option (List Bucket))
      → Stored
  stored_of current daily hourly = record {
    current = λ key. lookup key current;
    daily = daily;
    hourly = hourly;
    day_start = day_at;
    hour_start = hour_at;
    now = now;
    format = format;
  }

  -- Build
  unfoldable pub build_page : Lang → Disk → Option PageView × Disk
  build_page lang disk =
      let (current, disk₁) = query current_states disk in
      let (daily, disk₂) = query (daily_history zone opts.history_days now) disk₁ in
      let (hourly, disk₃) = query (hourly_history zone opts.history_hours now) disk₂ in
      elim current [
        | none ↦ (none, disk₁)
        | some states ↦ elim daily [
          | none ↦ (none, disk₂)
          | some days ↦ elim hourly [
            | none ↦ (none, disk₃)
            | some hours ↦ (some (build lang opts (stored_of states days hours)), disk₃)
          ]
        ]
      ]
