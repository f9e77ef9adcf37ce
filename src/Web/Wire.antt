-- ===== src/Web/Wire.antt =====
-- The answers of internal/web/api.go: the wire types, and what Status, Services and History put into
-- them.
pub mod Published
use is_ntust_down.Prelude.{ℕ, String, Option, none, some, List, [], ◌∷◌, map, length, if◌then◌else◌}
use is_ntust_down.Probe.{State, ReasonCode, reason_none, unexpected_body, is_known_reason}
use is_ntust_down.Store.Schema.{Share}
use is_ntust_down.Config.Registry.{Service}
use is_ntust_down.Web.I18n.{Catalog, message}
use is_ntust_down.Web.Labels.{Format, state_text, reason_text}
use is_ntust_down.Web.Shown.{CheckView, CellView, ServiceView, PageView}

pub record ApiCheck : Type 0 where
  pub key : String
  pub name : String
  pub state : String
  pub since : Option String
  pub last_checked_at : Option String
  pub latency_ms : Option ℕ
  pub reason_code : Option String

pub record ApiService : Type 0 where
  pub key : String
  pub name : String
  pub description : String
  pub state : String
  pub since : Option String
  pub last_checked_at : Option String
  pub uptime_pct : Option Share
  pub checks : List ApiCheck

pub record ApiStatus : Type 0 where
  pub generated_at : String
  pub overall_state : String
  pub history_days : ℕ
  pub services : List ApiService

-- a key and a name
pub record ApiKv : Type 0 where
  pub key : String
  pub name : String

pub record ApiServiceMeta : Type 0 where
  pub key : String
  pub name : String
  pub description : String
  pub checks : List ApiKv

pub record ApiBucket : Type 0 where
  pub start : String
  pub state : String
  pub uptime_pct : Option Share
  pub samples : ℕ

pub record ApiHistory : Type 0 where
  pub service : String
  pub resolution : String
  pub bucket_count : ℕ
  pub items : List ApiBucket

abbrev pub format_time : Format → Option ℕ → Option String
format_time format none = none
format_time format (some t) = some (format.rfc3339 t)

unfoldable pub publishable_reason : ReasonCode → Option String
publishable_reason reason_none = none
publishable_reason r = some (reason_text (if is_known_reason r then r else unexpected_body))

module _ (format : Format) where
  abbrev pub api_check : CheckView → ApiCheck
  api_check c = record {
    key = c.key;
    name = c.name;
    state = state_text c.state;
    since = format_time format c.since;
    last_checked_at = format_time format c.last_checked_at;
    latency_ms = c.latency_ms;
    reason_code = publishable_reason c.reason_code;
  }

  abbrev pub api_service : ServiceView → ApiService
  api_service svc = record {
    key = svc.key;
    name = svc.name;
    description = svc.desc;
    state = state_text svc.state;
    since = format_time format svc.since;
    last_checked_at = format_time format svc.last_checked_at;
    uptime_pct = svc.uptime_pct;
    checks = map api_check svc.checks;
  }

  unfoldable pub status_payload : PageView → ApiStatus
  status_payload view = record {
    generated_at = format.rfc3339 view.generated_at;
    overall_state = state_text view.overall;
    history_days = view.history_days;
    services = map api_service view.services;
  }

-- `start_text` is how a bucket's start is written: a date, or an hour
abbrev pub api_bucket : (ℕ → String) → CellView → ApiBucket
api_bucket start_text cell = record {
  start = start_text cell.start;
  state = state_text cell.state;
  uptime_pct = cell.uptime_pct;
  samples = cell.samples;
}

unfoldable pub history_payload : String → String → (ℕ → String) → List CellView → ApiHistory
history_payload key resolution start_text cells = record {
  service = key;
  resolution = resolution;
  bucket_count = length cells;
  items = map (api_bucket start_text) cells;
}

unfoldable pub services_payload : Catalog → List Service → List ApiServiceMeta
services_payload catalog = map λ svc. record {
  key = svc.key;
  name = message catalog svc.name_id;
  description = message catalog svc.desc_id;
  checks = map (λ c. record { key = c.key; name = message catalog c.name_id }) svc.checks;
}
