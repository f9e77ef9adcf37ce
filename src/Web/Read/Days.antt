-- ===== src/Web/Read/Days.antt =====
-- What the days of a page (Build of internal/web/view.go) have to do with the stored rows.
use is_ntust_down.Prelude.{
  ℕ, zero, suc, ◌+◌, ◌-◌, ◌≤◌, ◌<◌, ◌≡◌, refl, ap, ◌∙◌, String, Bool, true, false, not, none, some,
  List, [], ◌∷◌, map, get_elem?, filter_by, any_by, is_empty, arith, Bool-cases, inl, inr,
  if◌then◌else◌, ◌⊎◌,
}
use is_ntust_down.Store.Schema.{Db, Zone, Bucket}
use mathlib.Core.Option.{map as option_map}
use is_ntust_down.Store.Live.{current_states}
use is_ntust_down.Store.History.{
  hourly_history, first_day, series, in_window, row_cell, daily_history, daily_history_lem,
}
use is_ntust_down.Scheduler.OnStore.{Disk, query}
use is_ntust_down.Config.Registry.{Check, Service}
use is_ntust_down.Web.Shown.{Options, Stored, PageView, ServiceView}
use is_ntust_down.Web.I18n.{Lang}
use is_ntust_down.Web.Labels.{Format}
use is_ntust_down.Web.View.{column, cell_view, day_words, service_view, build}
use is_ntust_down.Web.View.Strip.{get_elem?-build_strip}
use is_ntust_down.Web.Read.{stored_of, build_page}

is_empty-filter_by :
    {A : Type 0} (p : A → Bool) (xs : List A) → is_empty (filter_by p xs) ≡ not (any_by p xs)
is_empty-filter_by p [] = refl
is_empty-filter_by p (x ∷ xs) = ground (arith, is_empty-filter_by p xs)

module _ (zone : Zone) (now days : ℕ) (db : Db) where
  -- whether a check has a row in the window of days
  abbrev pub has_days : String → Bool
  has_days key = any_by (in_window key (first_day zone days now) (zone.day_of now)) db.check_daily

  -- what is stored of a day for the checks that have a row in the window
  abbrev pub stored_days : List Check → ℕ → List Bucket
  stored_days [] d = []
  stored_days (chk ∷ checks) d =
      let rest = stored_days checks d in
      if has_days chk.key then row_cell db.check_daily chk.key d ∷ rest else rest

  daily_history-some :
      (key : String)
      → has_days key ≡ true
      → (cells : List Bucket) × (daily_history zone days now db key ≡ some cells)
  unfolding daily_history
  daily_history-some key h =
      let inside = in_window key (first_day zone days now) (zone.day_of now) in
      let rows = filter_by inside db.check_daily in
      (
        series (row_cell rows key) (first_day zone days now) days,
        rw (is_empty-filter_by inside db.check_daily, h) refl,
      )

  daily_history-none :
      (key : String) → has_days key ≡ false → daily_history zone days now db key ≡ none
  unfolding daily_history
  daily_history-none key h =
      let inside = in_window key (first_day zone days now) (zone.day_of now) in
      rw (is_empty-filter_by inside db.check_daily, h) refl

  column-daily :
      (checks : List Check) (i : ℕ)
      → i < days
      → days - 1 ≤ zone.day_of now
      → column (daily_history zone days now db) checks i
        ≡ stored_days checks (first_day zone days now + i)
  unfolding column
  column-daily [] i h k = refl
  column-daily (chk ∷ checks) i h k = elim (Bool-cases (has_days chk.key)) [
    | inl e ↦
        let (cells, found) = daily_history-some chk.key e in
        let cell = (daily_history_lem zone days now db chk.key cells found i h k).1 in
        rw (column, found, cell, e)
          (ap
            (λ (bs : List Bucket).
              row_cell db.check_daily chk.key (first_day zone days now + i) ∷ bs)
            (column-daily checks i h k))
    | inr e ↦ rw (column, daily_history-none chk.key e, e) (column-daily checks i h k)
  ]

get_elem?-map :
    {A B : Type 0} (f : A → B) (xs : List A) (i : ℕ) (x : A)
    → get_elem? xs i ≡ some x
    → get_elem? (map f xs) i ≡ some (f x)
get_elem?-map f [] i x h = ground (arith, h)
get_elem?-map f (y ∷ xs) zero x h = ap (option_map f) h
get_elem?-map f (y ∷ xs) (suc i) x h = get_elem?-map f xs i x h

query_cases :
    {A : Type 0} (read : Db → A) (disk : Disk)
    → ((query read disk).0 ≡ none) ⊎ ((query read disk).0 ≡ some (read disk.db))
query_cases read disk = ground arith

db-query : {A : Type 0} (read : Db → A) (disk : Disk) → (query read disk).1.db ≡ disk.db
db-query read disk = ground arith

module _ (zone : Zone) (format : Format) (opts : Options) (now : ℕ) (lang : Lang) where
  -- a page that is built is built from the three tables as they are
  build_page-some :
      (disk : Disk) (page : PageView)
      → (build_page zone format opts now lang disk).0 ≡ some page
      → page
        ≡ build lang opts (
            stored_of zone format opts now
              (current_states disk.db)
              (daily_history zone opts.history_days now disk.db)
              (hourly_history zone opts.history_hours now disk.db))
  unfolding build_page
  build_page-some disk page h =
      let disk₁ = (query current_states disk).1 in
      let disk₂ = (query (daily_history zone opts.history_days now) disk₁).1 in
      ground (
        arith,
        h,
        query_cases current_states disk,
        query_cases (daily_history zone opts.history_days now) disk₁,
        query_cases (hourly_history zone opts.history_hours now) disk₂,
        db-query current_states disk,
        db-query (daily_history zone opts.history_days now) disk₁,
      )

  services_of :
      (stored : Stored) (place : ℕ) (svc : Service)
      → get_elem? opts.services place ≡ some svc
      → get_elem? (build lang opts stored).services place ≡ some (service_view lang opts stored svc)
  unfolding build
  services_of stored place svc s =
      get_elem?-map (service_view lang opts stored) opts.services place svc s

  days_of :
      (svc : Service) (stored : Stored) (i : ℕ)
      → i < opts.history_days
      → get_elem? (service_view lang opts stored svc).days i
        ≡ some (
            cell_view
              (day_words stored.format lang)
              (stored.day_start i)
              (column stored.daily svc.checks i))
  unfolding service_view
  days_of svc stored i l =
      get_elem?-build_strip (day_words stored.format lang) stored.daily svc.checks stored.day_start
        opts.history_days i l

  -- A page that Build makes of the store shows each service of the registry at its place, and cell `i`
  -- of its days begins where the i-th day of the window begins and is made of the rows that are stored of that day for
  -- the checks that have a row in the window, if the window begins at the epoch or later.
  pub build_page-days :
      (disk : Disk) (page : PageView) (place : ℕ) (svc : Service) (i : ℕ)
      → (build_page zone format opts now lang disk).0 ≡ some page
      → get_elem? opts.services place ≡ some svc
      → i < opts.history_days
      → opts.history_days - 1 ≤ zone.day_of now
      → (view : ServiceView) × (get_elem? page.services place ≡ some view)
        × (get_elem? view.days i
            ≡ some (
                cell_view
                  (day_words format lang)
                  (zone.day_start (first_day zone opts.history_days now + i))
                  (stored_days zone now opts.history_days disk.db svc.checks
                    (first_day zone opts.history_days now + i))))
  build_page-days disk page place svc i h s l inside =
      let stored =
        stored_of zone format opts now (current_states disk.db)
          (daily_history zone opts.history_days now disk.db)
          (hourly_history zone opts.history_hours now disk.db) in
      (
        service_view lang opts stored svc,
        ap (λ (p : PageView). get_elem? p.services place) (build_page-some disk page h)
            ∙ services_of stored place svc s,
        days_of svc stored i l
            ∙ ap
                (λ (bs : List Bucket). some (
                  cell_view (day_words format lang)
                    (zone.day_start (first_day zone opts.history_days now + i)) bs))
                (column-daily zone now opts.history_days disk.db svc.checks i l inside),
      )
