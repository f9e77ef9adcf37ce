-- ===== src/Web/View.antt =====
-- internal/web/view.go: the page's view of the stored state. The registry says which services and
-- checks there are.
pub mod Since
pub mod Strip
use is_ntust_down.Prelude.{
  ℕ, zero, suc, ◌+◌, ◌≤◌, ◌≡◌, String, Bool, Option, none, some, List, [], ◌∷◌, map, ◌&&◌,
  get_elem?, ltb, leb, length, if◌then◌else◌, arith,
}
use is_ntust_down.Probe.{
  State, up, degraded, down, unknown, retired, same_state, ReasonCode, reason_none,
  derive_service_state, rollup_state,
}
use is_ntust_down.Store.Schema.{Counts, Share, Bucket, Current, conclusive}
use is_ntust_down.Config.Registry.{Check, Service}
use is_ntust_down.Web.Shown.{CheckView, CellView, ServiceView, PageView, Options, Stored}
use is_ntust_down.Web.I18n.{Lang, Catalog, catalog_for, message}
use is_ntust_down.Web.Labels.{
  Format, state_id, reason_label, banner_id, format_day, day_tooltip, hour_label, hour_tooltip,
}

-- what the page knows of a check that was never recorded, and of one that was
abbrev pub check_view : Catalog → Check → Option Current → CheckView
check_view catalog chk none = record {
  key = chk.key;
  name = message catalog chk.name_id;
  state = unknown;
  state_label = message catalog (state_id unknown);
  reason_code = reason_none;
  reason = "";
  latency_ms = none;
  since = none;
  last_checked_at = none;
}
check_view catalog chk (some cur) = record {
  key = chk.key;
  name = message catalog chk.name_id;
  state = cur.state;
  state_label = message catalog (state_id cur.state);
  reason_code = cur.reason_code;
  reason = reason_label catalog cur.reason_code;
  latency_ms = cur.latency_ms;
  since = some cur.since;
  last_checked_at = some cur.last_checked_at;
}

abbrev later : Option ℕ → Option ℕ → Option ℕ
later best none = best
later none (some t) = some t
later (some b) (some t) = if ltb b t then some t else some b

unfoldable pub last_checked : Option ℕ → List CheckView → Option ℕ
last_checked best [] = best
last_checked best (c ∷ checks) = last_checked (later best c.last_checked_at) checks

abbrev pub sooner : Option ℕ → ℕ → Option ℕ
sooner none t = some t
sooner (some b) t = if ltb t b then some t else some b

-- the loop of earliestSince
unfoldable pub earliest_since : Option ℕ → List CheckView → State → Option ℕ
earliest_since out [] s = out
earliest_since out (c ∷ checks) s = elim c.since [
  | none ↦ earliest_since out checks s
  | some t ↦ earliest_since (if same_state c.state s then sooner out t else out) checks s
]

abbrev pub samples_of : Counts → ℕ
samples_of c = c.ups + c.degradeds + c.downs + c.unknowns + c.retireds

abbrev pub share_of : ℕ → ℕ → Option Share
share_of ups total = if ltb 0 total then some (record { num = ups; den = total }) else none

unfoldable pub sum_of : (Bucket → ℕ) → List Bucket → ℕ
sum_of f [] = 0
sum_of f (b ∷ bs) = f b + sum_of f bs

-- the cells of a service's checks at one place of their series
unfoldable pub column : (String → Option (List Bucket)) → List Check → ℕ → List Bucket
column history [] i = []
column history (chk ∷ checks) i = elim (history chk.key) [
  | none ↦ column history checks i
  | some buckets ↦ elim (get_elem? buckets i) [
    | none ↦ column history checks i
    | some b ↦ b ∷ column history checks i
  ]
]

-- How a strip writes its cells: what stands under a cell, and the tooltip, of whether there are
-- samples, the uptime, the state and the number of samples.
pub record Wording : Type 0 where
  pub label : ℕ → String
  pub tooltip : ℕ → Bool → Option Share → State → ℕ → String

unfoldable pub cell_view : Wording → ℕ → List Bucket → CellView
unfolding sum_of
cell_view words start buckets =
    let state = derive_service_state (map (λ b. b.state) buckets) in
    let samples = sum_of (λ b. samples_of b.counts) buckets in
    let uptime_pct =
      share_of (sum_of (λ b. b.counts.ups) buckets) (sum_of (λ b. conclusive b.counts) buckets) in
    record {
      start = start;
      label = words.label start;
      state = state;
      uptime_pct = uptime_pct;
      samples = samples;
      has_data = ltb 0 samples;
      tooltip = words.tooltip start (ltb 0 samples) uptime_pct state samples;
    }

-- The loop of buildStrip and of buildHourStrip, from the place `i` on: the cells, and the samples
-- that are up and that are conclusive.
module _ (words : Wording) (history : String → Option (List Bucket)) (checks : List Check)
    (start_of : ℕ → ℕ) where
  unfoldable pub strip : ℕ → ℕ → List CellView × ℕ × ℕ
  unfolding column cell_view
  strip i zero = ([], 0, 0)
  strip i (suc n) =
      let buckets = column history checks i in
      let (cells, total_up, total_conclusive) = strip (suc i) n in
      (
        cell_view words (start_of i) buckets ∷ cells,
        sum_of (λ b. b.counts.ups) buckets + total_up,
        sum_of (λ b. conclusive b.counts) buckets + total_conclusive,
      )

  unfoldable pub build_strip : ℕ → List CellView × Option Share
  unfolding strip
  build_strip n = let (cells, ups, total) = strip 0 n in (cells, share_of ups total)

abbrev pub rolled_up : CheckView → State
rolled_up c = rollup_state c.state c.reason_code

abbrev pub day_words : Format → Lang → Wording
day_words format lang = record {
  label = format_day format lang;
  tooltip = λ t. day_tooltip format (catalog_for lang) lang (format_day format lang t);
}

abbrev pub hour_words : Format → Lang → Wording
hour_words format lang = record {
  label = hour_label format;
  tooltip = hour_tooltip format (catalog_for lang) lang;
}

-- buildHourStrip, which is the same loop over the hours
abbrev pub build_hour_strip : Lang → Options → Stored → List Check → List CellView × Option Share
build_hour_strip lang opts db checks =
    build_strip (hour_words db.format lang) db.hourly checks db.hour_start opts.history_hours

unfoldable pub service_view : Lang → Options → Stored → Service → ServiceView
unfolding build_strip last_checked earliest_since
service_view lang opts db svc =
    let catalog = catalog_for lang in
    let checks = map (λ chk. check_view catalog chk (db.current chk.key)) svc.checks in
    let state = derive_service_state (map rolled_up checks) in
    let (days, uptime_pct) =
      build_strip (day_words db.format lang) db.daily svc.checks db.day_start opts.history_days in
    let (hours, hour_uptime_pct) = build_hour_strip lang opts db svc.checks in
    record {
      key = svc.key;
      name = message catalog svc.name_id;
      desc = message catalog svc.desc_id;
      state = state;
      state_label = message catalog (state_id state);
      since = earliest_since none checks state;
      last_checked_at = last_checked none checks;
      uptime_pct = uptime_pct;
      hour_uptime_pct = hour_uptime_pct;
      checks = checks;
      days = days;
      hours = hours;
    }

-- `Build`, where no read has failed
unfoldable pub build : Lang → Options → Stored → PageView
unfolding service_view
build lang opts db =
    let services = map (service_view lang opts db) opts.services in
    let overall = derive_service_state (map (λ s. s.state) services) in
    record {
      lang = lang;
      generated_at = db.now;
      overall = overall;
      overall_text = message (catalog_for lang) (banner_id overall);
      services = services;
      history_days = opts.history_days;
      history_hours = opts.history_hours;
    }
