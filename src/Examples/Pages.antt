-- ===== src/Examples/Pages.antt =====
-- The page's view and the history handler (internal/web) on small inputs.
use is_ntust_down.Prelude.{◌≡◌, refl, String, Option, none, some, List, [], ◌∷◌, ℤ, pos, length}
use is_ntust_down.Probe.{up}
use is_ntust_down.Store.Schema.{Bucket}
use is_ntust_down.Config.Registry.{Service, Check}
use is_ntust_down.Web.I18n.{en}
use is_ntust_down.Web.Labels.{Format}
use is_ntust_down.Web.View.{build}
use is_ntust_down.Web.Shown.{CellView, Options, Stored}
use is_ntust_down.Web.Api.{history, buckets, hour}
use is_ntust_down.Web.Api.Answers.{length-history}

abbrev api_check : Check
api_check = record { key = "querycourse.api"; name_id = "check.api" }

abbrev pub api_service : Service
api_service = record {
  key = "querycourse";
  name_id = "service.querycourse.name";
  desc_id = "service.querycourse.desc";
  checks = api_check ∷ [];
}

abbrev sample : Bucket
sample = record {
  start = 0;
  state = up;
  uptime_pct = none;
  counts = record { ups = 3; degradeds = 1; downs = 0; unknowns = 2; retireds = 0 };
}

-- a calendar that prints nothing
abbrev pub format : Format
format = record {
  month = λ t. 1;
  day = λ t. t;
  hour = λ t. t;
  month_and_day = λ t. "Jan 2";
  rfc3339 = λ t. "";
  decimal = λ n. "";
  two_digits = λ n. "";
  percent = λ p. "";
}

abbrev two_days : String → Option (List Bucket)
two_days key = some (sample ∷ sample ∷ [])

abbrev pub options : Options
options = record { services = api_service ∷ []; history_days = 2; history_hours = 3 }

abbrev pub stored : Stored
stored = record {
  current = λ key. none;
  daily = two_days;
  hourly = λ key. none;
  day_start = λ i. i;
  hour_start = λ i. i;
  now = 1;
  format = format;
}

abbrev two_only : String → Option ℤ
two_only raw = some (pos 2)

length-history_example :
    (cells : List CellView) × (history two_only options
        (some (build en options stored))
        "querycourse"
        "hour"
        "2"
      ≡ buckets cells)
    × (length cells ≡ 2)
length-history_example =
    length-history two_only en options stored "querycourse" "hour" "2" hour 2 refl refl refl
