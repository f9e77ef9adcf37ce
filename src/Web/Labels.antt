-- ===== src/Web/Labels.antt =====
-- The texts that internal/web/view.go makes of states, reasons and cells: formatDay, samples,
-- dayTooltip, hourTooltip and bannerID. What Go's time and fmt packages print is a parameter.
pub mod Found
use is_ntust_down.Prelude.{
  ℕ, suc, ◌%◌, String, Bool, true, false, Option, none, some, str_append, if◌then◌else◌,
}
use is_ntust_down.Probe.{
  State, up, degraded, down, unknown, retired, ReasonCode, reason_none, unreachable, timeout,
  http_4xx, http_5xx, unexpected_body, sso_form_missing, sso_login_rejected, sso_bridge_missing,
  token_invalid, username_mismatch, breaker_open, reason_retired, login_form_missing, mx_partial,
  gate_closed, not_configured, sso_redirect_failed, paused_after_failure, other,
}
use is_ntust_down.Store.Schema.{Share}
use is_ntust_down.Web.I18n.{Lang, zh_tw, en, Catalog, message}

pub record Format : Type 0 where
  -- the parts of a local instant
  pub month : ℕ → ℕ
  pub day : ℕ → ℕ
  pub hour : ℕ → ℕ
  -- the layout "Jan 2"
  pub month_and_day : ℕ → String
  -- time.RFC3339
  pub rfc3339 : ℕ → String
  -- `%d`, `%02d`, and `%.2f%%` of 100 times a share
  pub decimal : ℕ → String
  pub two_digits : ℕ → String
  pub percent : Share → String

-- string(state)
abbrev pub state_text : State → String
state_text up = "up"
state_text degraded = "degraded"
state_text down = "down"
state_text unknown = "unknown"
state_text retired = "retired"

-- string(reason)
abbrev pub reason_text : ReasonCode → String
reason_text reason_none = ""
reason_text unreachable = "unreachable"
reason_text timeout = "timeout"
reason_text http_4xx = "http_4xx"
reason_text http_5xx = "http_5xx"
reason_text unexpected_body = "unexpected_body"
reason_text sso_form_missing = "sso_form_missing"
reason_text sso_login_rejected = "sso_login_rejected"
reason_text sso_bridge_missing = "sso_bridge_missing"
reason_text token_invalid = "token_invalid"
reason_text username_mismatch = "username_mismatch"
reason_text breaker_open = "breaker_open"
reason_text reason_retired = "retired"
reason_text login_form_missing = "login_form_missing"
reason_text mx_partial = "mx_partial"
reason_text gate_closed = "gate_closed"
reason_text not_configured = "not_configured"
reason_text sso_redirect_failed = "sso_redirect_failed"
reason_text paused_after_failure = "paused_after_failure"
reason_text (other s) = s

abbrev pub state_id : State → String
state_id s = str_append "state." (state_text s)

abbrev pub reason_id : ReasonCode → String
reason_id r = str_append "reason." (reason_text r)

-- the reason that the page shows beside a check
abbrev pub reason_label : Catalog → ReasonCode → String
reason_label catalog reason_none = ""
reason_label catalog r = message catalog (reason_id r)

abbrev pub banner_id : State → String
banner_id up = "banner.ok"
banner_id retired = "banner.ok"
banner_id degraded = "banner.degraded"
banner_id down = "banner.down"
banner_id unknown = "banner.unknown"

-- Sprintf of "%s%s…"
infixr 6 ◌<>◌
abbrev ◌<>◌ : String → String → String
s <> t = str_append s t

module _ (format : Format) where
  abbrev pub format_day : Lang → ℕ → String
  format_day zh_tw t =
      format.decimal (format.month t) <> "月" <> format.decimal (format.day t) <> "日"
  format_day en t = format.month_and_day t

  abbrev pub samples_text : Lang → ℕ → String
  samples_text zh_tw n = "（" <> format.decimal n <> "）"
  samples_text en n = " (" <> format.decimal n <> ")"

  -- the end of both tooltips, after the day or the hours
  abbrev described : Catalog → Lang → Bool → Option Share → State → ℕ → String
  described catalog lang false pct s n = message catalog "label.no_data"
  described catalog lang true none s n = message catalog (state_id s)
  described catalog lang true (some pct) s n =
      message catalog "label.uptime" <> " " <> format.percent pct <> samples_text lang n

  abbrev pub day_tooltip : Catalog → Lang → String → Bool → Option Share → State → ℕ → String
  day_tooltip catalog lang label has_data pct s n =
      label <> " — " <> described catalog lang has_data pct s n

  abbrev pub hour_label : ℕ → String
  hour_label t = format.two_digits (format.hour t)

  abbrev pub hour_span : Lang → ℕ → String
  hour_span lang t =
      format_day lang t
      <> " "
      <> format.two_digits (format.hour t)
      <> ":00–"
      <> format.two_digits (suc (format.hour t) % 24)
      <> ":00"

  abbrev pub hour_tooltip : Catalog → Lang → ℕ → Bool → Option Share → State → ℕ → String
  hour_tooltip catalog lang t has_data pct s n =
      hour_span lang t <> " — " <> described catalog lang has_data pct s n
