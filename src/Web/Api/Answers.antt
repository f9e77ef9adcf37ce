-- ===== src/Web/Api/Answers.antt =====
-- What the history handler of internal/web/api.go answers over the view that Build makes.
use is_ntust_down.Prelude.{
  ℕ, ◌-◌, ◌≤◌, ◌≡◌, refl, ap, true, String, Option, some, List, [], ◌∷◌, map, length, ℤ, str_eq,
  count_by, arith, length-drop, length-append, any_by,
}
use is_ntust_down.Config.Registry.{Service}
use is_ntust_down.Web.View.{build, service_view, day_words, hour_words}
use is_ntust_down.Web.Shown.{CellView, Options, Stored}
use is_ntust_down.Web.I18n.{Lang}
use is_ntust_down.Web.View.Strip.{length-build_strip}
use is_ntust_down.Web.Api.{
  buckets, Resolution, day, hour, resolution_of, limit_of, strip_of, count_of, newest, window_of,
  history,
}

length-newest :
    (count : ℕ) (window : List CellView)
    → count ≤ length window
    → length (newest count window) ≡ count
unfolding newest
length-newest count window h = ground (arith, length-drop (length window - count) window)

module _ (lang : Lang) (opts : Options) (db : Stored) (key : String) (count : ℕ) where
  length-strip_of :
      (res : Resolution) (svc : Service)
      → length (strip_of res (service_view lang opts db svc)) ≡ limit_of opts res
  unfolding service_view
  length-strip_of day svc =
      length-build_strip (day_words db.format lang) db.daily svc.checks db.day_start
        opts.history_days
  length-strip_of hour svc =
      length-build_strip (hour_words db.format lang) db.hourly svc.checks db.hour_start
        opts.history_hours

  key-service_view : (svc : Service) → (service_view lang opts db svc).key ≡ svc.key
  unfolding service_view
  key-service_view svc = refl

  window_of-absent :
      (res : Resolution) (services : List Service)
      → count_by (λ svc. str_eq svc.key key) services ≡ 0
      → window_of res count key (map (service_view lang opts db) services) ≡ []
  unfolding window_of service_view
  window_of-absent res [] h = refl
  window_of-absent res (svc ∷ services) h = ground (arith, window_of-absent res services)

  length-window_of :
      (res : Resolution) (services : List Service)
      → count ≤ limit_of opts res
      → count_by (λ svc. str_eq svc.key key) services ≡ 1
      → length (window_of res count key (map (service_view lang opts db) services)) ≡ count
  unfolding window_of
  length-window_of res [] l h = ground arith
  length-window_of day (svc ∷ services) l h = ground (
    arith,
    length-window_of day services l,
    window_of-absent day services,
    length-append (newest count (service_view lang opts db svc).days)
        (window_of day count key (map (service_view lang opts db) services)),
    ap length {x = window_of day count key (map (service_view lang opts db) services)} {y = []},
    length-newest count (service_view lang opts db svc).days,
    length-strip_of day svc,
    key-service_view svc,
  )
  length-window_of hour (svc ∷ services) l h = ground (
    arith,
    length-window_of hour services l,
    length-newest count (service_view lang opts db svc).hours,
    length-strip_of hour svc,
    key-service_view svc,
  )

count_of-le :
    (atoi : String → Option ℤ)
    → (raw : String) → (limit n : ℕ) → count_of atoi raw limit ≡ some n
    → n ≤ limit
count_of-le atoi raw limit n h = ground arith

any_by-counted :
    (key : String)
    → (services : List Service) → count_by (λ svc. str_eq svc.key key) services ≡ 1
    → any_by (λ svc. str_eq svc.key key) services ≡ true
any_by-counted key [] h = ground arith
any_by-counted key (svc ∷ services) h = ground (arith, any_by-counted key services)

-- Over the view that Build makes, a history request for a service that the registry names once answers
-- with exactly as many buckets as the request asks for, or as the window has if it names no number:
-- one whose resolution and number are accepted does so, whatever is stored.
pub length-history :
    (atoi : String → Option ℤ)
    → (lang : Lang) → (opts : Options) → (db : Stored) → (key resolution raw : String)
    → (res : Resolution) → (n : ℕ) → count_by (λ svc. str_eq svc.key key) opts.services ≡ 1
    → resolution_of resolution ≡ some res
    → count_of atoi raw (limit_of opts res) ≡ some n
    → (cells : List CellView) × (history atoi opts (some (build lang opts db)) key resolution raw
        ≡ buckets cells)
      × (length cells ≡ n)
unfolding history build
length-history atoi lang opts db key resolution raw res n once r c =
    let cells = window_of res n key (map (service_view lang opts db) opts.services) in
    (
      cells,
      rw (any_by-counted key opts.services once, r, c) refl,
      length-window_of lang opts db key n res opts.services
          (count_of-le atoi raw (limit_of opts res) n c) once,
    )
