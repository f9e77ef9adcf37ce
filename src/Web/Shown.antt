-- ===== src/Web/Shown.antt =====
-- What the page shows, and what it is built from: the records of internal/web/view.go.
use is_ntust_down.Prelude.{ℕ, String, Bool, Option, List}
use is_ntust_down.Probe.{State, ReasonCode}
use is_ntust_down.Store.Schema.{Share, Bucket, Current}
use is_ntust_down.Config.Registry.{Service}
use is_ntust_down.Web.I18n.{Lang}
use is_ntust_down.Web.Labels.{Format}

pub record CheckView : Type 0 where
  pub key : String
  pub name : String
  pub state : State
  pub state_label : String
  pub reason_code : ReasonCode
  pub reason : String
  pub latency_ms : Option ℕ
  pub since : Option ℕ
  pub last_checked_at : Option ℕ

-- DayView and HourView: `start` is the local day or the local hour
pub record CellView : Type 0 where
  pub start : ℕ
  pub label : String
  pub state : State
  pub uptime_pct : Option Share
  pub samples : ℕ
  pub has_data : Bool
  pub tooltip : String

pub record ServiceView : Type 0 where
  pub key : String
  pub name : String
  pub desc : String
  pub state : State
  pub state_label : String
  pub since : Option ℕ
  pub last_checked_at : Option ℕ
  pub uptime_pct : Option Share
  pub hour_uptime_pct : Option Share
  pub checks : List CheckView
  pub days : List CellView
  pub hours : List CellView

pub record PageView : Type 0 where
  pub lang : Lang
  pub generated_at : ℕ
  pub overall : State
  pub overall_text : String
  pub services : List ServiceView
  pub history_days : ℕ
  pub history_hours : ℕ

pub record Options : Type 0 where
  pub services : List Service
  pub history_days : ℕ
  pub history_hours : ℕ

-- what the reader returned, the local starts of the strips' cells, the local time and how it is written
pub record Stored : Type 0 where
  pub current : String → Option Current
  pub daily : String → Option (List Bucket)
  pub hourly : String → Option (List Bucket)
  pub day_start : ℕ → ℕ
  pub hour_start : ℕ → ℕ
  pub now : ℕ
  pub format : Format
