-- ===== src/Web/Api.antt =====
-- The history handler of internal/web/api.go. `strconv.Atoi` is a parameter.
pub mod Answers
use is_ntust_down.Prelude.{
  ℕ, zero, suc, ◌+◌, ◌-◌, ◌≤◌, ◌<◌, ◌≡◌, String, Bool, Option, none, some, List, [], ◌∷◌, ◌++◌,
  any_by, drop, length, ltb, leb, ltb_ℤ, ◌||◌, ℤ, pos, negsuc, str_eq, if◌then◌else◌, arith,
  length-drop,
}
use is_ntust_down.Config.Registry.{Service}
use is_ntust_down.Web.Shown.{CellView, ServiceView, PageView, Options}

pub data HistoryReply : Type 0 where
  unknown_service invalid_resolution invalid_count unavailable : HistoryReply
  buckets : List CellView → HistoryReply

pub data Resolution : Type 0 where
  day hour : Resolution

abbrev pub resolution_of : String → Option Resolution
resolution_of raw =
    if str_eq raw "" || str_eq raw "day"
    then some day
    else if str_eq raw "hour"
    then some hour
    else none

abbrev pub limit_of : Options → Resolution → ℕ
limit_of opts day = opts.history_days
limit_of opts hour = opts.history_hours

abbrev pub strip_of : Resolution → ServiceView → List CellView
strip_of day svc = svc.days
strip_of hour svc = svc.hours

abbrev magnitude : ℤ → ℕ
magnitude (pos n) = n
magnitude (negsuc n) = 0

-- the `days` or `hours` parameter of the query, which may be empty
abbrev pub count_of : (String → Option ℤ) → String → ℕ → Option ℕ
count_of atoi raw limit = if str_eq raw "" then some limit else elim (atoi raw) [
  | none ↦ none
  | some n ↦ if ltb_ℤ n (pos 1) || ltb_ℤ (pos limit) n then none else some (magnitude n)
]

-- the most recent cells
unfoldable pub newest : ℕ → List CellView → List CellView
newest count window =
    if ltb count (length window) then drop (length window - count) window else window

-- the loops over the view's services: the days of every service with the key, the hours of the first
unfoldable pub window_of : Resolution → ℕ → String → List ServiceView → List CellView
unfolding newest
window_of resolution count key [] = []
window_of resolution count key (svc ∷ services) =
    let rest = window_of resolution count key services in
    if str_eq svc.key key
    then (elim resolution [ hour ↦ newest count svc.hours | day ↦ newest count svc.days ++ rest ])
    else rest

-- `view` is what Build returns
unfoldable pub history :
    (String → Option ℤ) → Options → Option PageView → String → String → String → HistoryReply
unfolding window_of
history atoi opts view key resolution raw =
    if any_by (λ svc. str_eq svc.key key) opts.services
    then elim (resolution_of resolution) [
      | none ↦ invalid_resolution
      | some res ↦ elim (count_of atoi raw (limit_of opts res)) [
        | none ↦ invalid_count
        | some count ↦ elim view [
          | none ↦ unavailable
          | some v ↦ buckets (window_of res count key v.services)
        ]
      ]
    ]
    else unknown_service
