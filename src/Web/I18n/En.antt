-- ===== src/Web/I18n/En.antt =====
-- The catalogue EnUS of internal/web/i18n/en.go.
use is_ntust_down.Prelude.{String, [], ◌∷◌}
use is_ntust_down.Store.Table.{Table}

unfoldable pub en_us : Table String String
en_us =
    ("site.title", "NTUST Service Status")
    ∷ (
      "site.tagline",
      "Live status for NTUST Moodle, course selection, webmail and the TigerDuck backend",
    )
    ∷ (
      "site.subtitle",
      "Checked automatically every minute — both whether each site responds and whether SSO login actually works.",
    )
    ∷ ("site.disclaimer", "This site is for reference only.")
    ∷ ("state.up", "Operational")
    ∷ ("state.degraded", "Possible service outage")
    ∷ ("state.down", "Outage")
    ∷ ("state.unknown", "Checks paused")
    ∷ ("state.retired", "Retired")
    ∷ ("banner.ok", "All services operational")
    ∷ ("banner.degraded", "Some services degraded")
    ∷ ("banner.down", "Possible service outage")
    ∷ ("banner.unknown", "No results yet")
    ∷ ("service.moodle.name", "Moodle")
    ∷ ("service.moodle.desc", "moodle2.ntust.edu.tw — courses, assignments and grades")
    ∷ ("service.courseselection.name", "Course Selection")
    ∷ ("service.courseselection.desc", "courseselection.ntust.edu.tw — enrolment and course lists")
    ∷ ("service.mail.name", "NTUST WebMail")
    ∷ ("service.mail.desc", "mail.ntust.edu.tw — campus email (Mail2000)")
    ∷ ("service.querycourse.name", "Course Query API")
    ∷ ("service.querycourse.desc", "querycourse.ntust.edu.tw — the course search data source")
    ∷ ("service.tigerduck_v3.name", "TigerDuck Backend v3")
    ∷ ("service.tigerduck_v3.desc", "api.tigerduck.app/v3 — the API version in use")
    ∷ ("check.site", "Site reachable")
    ∷ ("check.sso_page", "SSO login page")
    ∷ ("check.sso_login", "SSO sign-in")
    ∷ ("check.api", "API response")
    ∷ ("check.login_page", "Login page")
    ∷ ("check.smtp", "Mail delivery (MX)")
    ∷ ("reason.unreachable", "Unreachable")
    ∷ ("reason.timeout", "Timed out")
    ∷ ("reason.http_4xx", "Client error (4xx)")
    ∷ ("reason.http_5xx", "Server error (5xx)")
    ∷ ("reason.unexpected_body", "Unexpected response")
    ∷ ("reason.sso_form_missing", "SSO login page is broken")
    ∷ ("reason.sso_login_rejected", "SSO rejected the sign-in")
    ∷ ("reason.sso_bridge_missing", "SSO redirect chain broke")
    ∷ ("reason.sso_redirect_failed", "SSO didn't redirect back to the site after sign-in")
    ∷ (
      "reason.paused_after_failure",
      "Last sign-in check failed; paused to avoid locking the account",
    )
    ∷ ("reason.token_invalid", "Session token rejected")
    ∷ ("reason.username_mismatch", "Signed in as the wrong account")
    ∷ ("reason.breaker_open", "Sign-in checks paused to avoid locking the account")
    ∷ ("reason.gate_closed", "Login page is down, so sign-in is not being checked")
    ∷ ("reason.not_configured", "No credentials configured — site checks only")
    ∷ ("reason.retired", "This version is no longer served")
    ∷ ("reason.login_form_missing", "Login page did not render its form")
    ∷ ("reason.mx_partial", "Some mail servers are not responding")
    ∷ ("label.uptime", "Uptime")
    ∷ ("label.last_checked", "Last checked")
    ∷ ("label.since", "Since")
    ∷ ("label.history", "%d days")
    ∷ ("label.history_hours", "%d hours")
    ∷ ("label.no_data", "No data")
    ∷ ("label.legend", "Legend")
    ∷ ("label.updated_at", "Updated")
    ∷ ("label.api", "Public API")
    ∷ ("label.api_desc", "All status data is available through a public, rate-limited API.")
    ∷ ("label.theme", "Appearance")
    ∷ ("label.theme_auto", "System")
    ∷ ("label.theme_light", "Light")
    ∷ ("label.theme_dark", "Dark")
    ∷ ("label.source", "Data refreshes every minute; SSO sign-in is verified hourly.")
    ∷ ("label.tap_hint", "Select a bar for that day's detail")
    ∷ ("label.tap_hint_hour", "Select a box for that hour's detail")
    ∷ ("label.never_checked", "Not checked yet")
    ∷ ("label.range", "Time range")
    ∷ ("label.skip", "Skip to main content")
    ∷ ("label.switch_lang", "中文")
    ∷ ("label.unavailable", "Temporarily unavailable")
    ∷ []
