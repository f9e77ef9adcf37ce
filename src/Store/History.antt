-- ===== src/Store/History.antt =====
-- DailyHistory of internal/store/store.go; HourlyHistory and currentHourBuckets of
-- internal/store/hourly.go. A check that has no row in the window has no series.
pub mod Shown
pub mod Newest
use is_ntust_down.Prelude.{
  ℕ, zero, suc, ◌+◌, ◌-◌, ◌*◌, ◌≤◌, ◌<◌, ◌≡◌, refl, ap, same_pair_iff, eq_refl, String, Bool, true,
  false, Option, none, some, List, [], ◌∷◌, map, ◌&&◌, filter_by, any_by, is_empty, length,
  get_elem?, ltb, leb, ◌==◌, str_eq, pair_key, nat_key, text_key, if◌then◌else◌, arith,
}
use is_ntust_down.Probe.{unknown}
use is_ntust_down.Store.Schema.{CheckResult, Counts, Share, BucketRow, Bucket, Db, Zone, conclusive}
use is_ntust_down.Store.Table.{Table, lookup, lookup-filter_by}
use is_ntust_down.Store.Rollup.{day_state, tally_rows}

abbrev pub hour : ℕ
hour = 3600000000000

abbrev pub bucket_of_row : ℕ → BucketRow → Bucket
bucket_of_row start row = record {
  start = start;
  state = day_state row.counts;
  uptime_pct = row.uptime_pct;
  counts = row.counts;
}

abbrev pub empty_bucket : ℕ → Bucket
empty_bucket start = record {
  start = start;
  state = unknown;
  uptime_pct = none;
  counts = record { ups = 0; degradeds = 0; downs = 0; unknowns = 0; retireds = 0 };
}

-- the cells of `n` consecutive starts, the first at `start`
unfoldable pub series : (ℕ → Bucket) → ℕ → ℕ → List Bucket
series at start zero = []
series at start (suc n) = at start ∷ series at (suc start) n

abbrev pub in_window : String → ℕ → ℕ → (String × ℕ) × BucketRow → Bool
in_window key first last b = str_eq b.0.0 key && leb first b.0.1 && leb b.0.1 last

abbrev pub row_cell : Table (String × ℕ) BucketRow → String → ℕ → Bucket
row_cell rows key d = elim (lookup (key, d) rows) [
  | none ↦ empty_bucket d
  | some row ↦ bucket_of_row d row
]

module _ (zone : Zone) where
  abbrev pub first_day : ℕ → ℕ → ℕ
  first_day days now = zone.day_of now - (days - 1)

  unfoldable pub daily_history : ℕ → ℕ → Db → String → Option (List Bucket)
  unfolding series
  daily_history days now db key =
      let rows = filter_by (in_window key (first_day days now) (zone.day_of now)) db.check_daily in
      if is_empty rows then none else some (series (row_cell rows key) (first_day days now) days)

  abbrev pub live_bucket : ℕ → List CheckResult → Option Bucket
  live_bucket start [] = none
  live_bucket start (r ∷ rows) =
      let c = tally_rows (r ∷ rows) in
      some record {
        start = start;
        state = day_state c;
        uptime_pct =
            if ltb 0 (conclusive c)
            then some (record { num = c.ups; den = conclusive c })
            else none;
        counts = c;
      }

  abbrev is_none_bucket : Option Bucket → Bool
  is_none_bucket none = true
  is_none_bucket (some b) = false

  -- the results of the local hour that an instant lies in, and later ones
  unfoldable pub current_hour_bucket : ℕ → Db → String → Option Bucket
  current_hour_bucket start db key =
      live_bucket (zone.hour_of start)
        (filter_by (λ r. str_eq r.check_key key && leb start r.observed_at) db.check_results)

  -- the cell of the hour that contains an instant
  abbrev pub hour_cell : Table (String × ℕ) BucketRow → Option Bucket → ℕ → String → ℕ → Bucket
  hour_cell rows live end key at =
      if zone.hour_of at == zone.hour_of end
      then elim live [ some b ↦ b | none ↦ row_cell rows key (zone.hour_of at) ]
      else row_cell rows key (zone.hour_of at)

  unfoldable pub hourly_history : ℕ → ℕ → Db → String → Option (List Bucket)
  unfolding series current_hour_bucket
  hourly_history hours now db key =
      let end = zone.hour_start now in
      let start = end - (hours - 1) * hour in
      let rows =
        filter_by (in_window key (zone.hour_of start) (zone.hour_of end)) db.check_hourly in
      let live = current_hour_bucket end db key in
      if is_empty rows && is_none_bucket live
      then none
      else some (series (λ i. hour_cell rows live end key (start + i * hour)) 0 hours)

pub length-series : (at : ℕ → Bucket) (start n : ℕ) → length (series at start n) ≡ n
unfolding series
length-series at start zero = refl
length-series at start (suc n) = ground (arith, length-series at (suc start) n)

pub get_elem?-series :
    (at : ℕ → Bucket) (start n i : ℕ)
    → i < n
    → get_elem? (series at start n) i ≡ some (at (start + i))
unfolding series
get_elem?-series at start zero i h = elim h [ ]
get_elem?-series at start (suc n) zero h = ground arith
get_elem?-series at start (suc n) (suc i) h = ground (arith, get_elem?-series at (suc start) n i)

-- the window's filter drops no row of a day inside it
lookup-in_window :
    (rows : Table (String × ℕ) BucketRow)
    → (key : String) → (first last d : ℕ) → first ≤ d
    → d ≤ last
    → lookup (key, d) (filter_by (in_window key first last) rows) ≡ lookup (key, d) rows
unfolding lookup
lookup-in_window [] key first last d l m = refl
lookup-in_window ((g, row) ∷ rows) key first last d l m = ground (
  arith,
  lookup-in_window rows key first last d l m,
  same_pair_iff g (key, d),
  ap (λ (k : String × ℕ). in_window key first last (k, row)) {x = g} {y = (key, d)},
  eq_refl key,
)

-- A check's daily history, where there is one, has a cell for each of the days asked for: cell `i`
-- is the stored bucket of the i-th day of the window, or an empty one if nothing is stored.
pub daily_history_lem :
    (zone : Zone)
    → (days now : ℕ) → (db : Db) → (key : String) → (cells : List Bucket)
    → daily_history zone days now db key ≡ some cells
    → (i : ℕ) → i < days
    → days - 1 ≤ zone.day_of now
    → (length cells ≡ days)
      × (get_elem? cells i ≡ some (row_cell db.check_daily key (zone.day_of now - (days - 1) + i)))
unfolding daily_history
daily_history_lem zone days now db key cells h i l inside =
    let first = first_day zone days now in
    let rows = filter_by (in_window key first (zone.day_of now)) db.check_daily in
    ground (
      arith,
      length-series (row_cell rows key) first days,
      get_elem?-series (row_cell rows key) first days i,
      lookup-in_window db.check_daily key first (zone.day_of now) (first + i),
    )
