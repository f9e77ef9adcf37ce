-- ===== src/Web/Wire/Published.antt =====
-- What the status answer of internal/web/api.go publishes.
use is_ntust_down.Prelude.{◌≡◌, refl, String, true, false, Option, none, some, List, [], ◌∷◌, map}
use is_ntust_down.Probe.{
  ReasonCode, reason_none, unreachable, timeout, http_4xx, http_5xx, unexpected_body,
  sso_form_missing, sso_login_rejected, sso_bridge_missing, token_invalid, username_mismatch,
  breaker_open, reason_retired, login_form_missing, mx_partial, gate_closed, not_configured,
  sso_redirect_failed, paused_after_failure, other, is_known_reason, is_none,
}
use is_ntust_down.Store.Schema.{Current}
use is_ntust_down.Config.Registry.{Check, Service}
use is_ntust_down.Web.I18n.{Lang, Catalog, catalog_for}
use is_ntust_down.Web.Labels.{Format, reason_text}
use is_ntust_down.Web.View.{check_view, service_view, build}
use is_ntust_down.Web.Shown.{CheckView, ServiceView, Options, Stored}
use is_ntust_down.Web.Wire.{
  ApiCheck, ApiService, publishable_reason, api_check, api_service, status_payload,
}

-- no reason, or the text of a known one
abbrev pub IsKnown : Option String → Type 0
IsKnown none = Unit
IsKnown (some text) =
    (r : ReasonCode) × (is_known_reason r ≡ true) × (is_none r ≡ false) × (text ≡ reason_text r)

publishable_reason-IsKnown : (r : ReasonCode) → IsKnown (publishable_reason r)
unfolding publishable_reason is_known_reason
publishable_reason-IsKnown reason_none = tt
publishable_reason-IsKnown (other s) = (unexpected_body, refl, refl, refl)
publishable_reason-IsKnown unreachable = (unreachable, refl, refl, refl)
publishable_reason-IsKnown timeout = (timeout, refl, refl, refl)
publishable_reason-IsKnown http_4xx = (http_4xx, refl, refl, refl)
publishable_reason-IsKnown http_5xx = (http_5xx, refl, refl, refl)
publishable_reason-IsKnown unexpected_body = (unexpected_body, refl, refl, refl)
publishable_reason-IsKnown sso_form_missing = (sso_form_missing, refl, refl, refl)
publishable_reason-IsKnown sso_login_rejected = (sso_login_rejected, refl, refl, refl)
publishable_reason-IsKnown sso_bridge_missing = (sso_bridge_missing, refl, refl, refl)
publishable_reason-IsKnown token_invalid = (token_invalid, refl, refl, refl)
publishable_reason-IsKnown username_mismatch = (username_mismatch, refl, refl, refl)
publishable_reason-IsKnown breaker_open = (breaker_open, refl, refl, refl)
publishable_reason-IsKnown reason_retired = (reason_retired, refl, refl, refl)
publishable_reason-IsKnown login_form_missing = (login_form_missing, refl, refl, refl)
publishable_reason-IsKnown mx_partial = (mx_partial, refl, refl, refl)
publishable_reason-IsKnown gate_closed = (gate_closed, refl, refl, refl)
publishable_reason-IsKnown not_configured = (not_configured, refl, refl, refl)
publishable_reason-IsKnown sso_redirect_failed = (sso_redirect_failed, refl, refl, refl)
publishable_reason-IsKnown paused_after_failure = (paused_after_failure, refl, refl, refl)

abbrev pub AllKnown : List ApiCheck → Type 0
AllKnown [] = Unit
AllKnown (c ∷ checks) = IsKnown c.reason_code × AllKnown checks

abbrev pub AllServicesKnown : List ApiService → Type 0
AllServicesKnown [] = Unit
AllServicesKnown (svc ∷ services) = AllKnown svc.checks × AllServicesKnown services

checks-AllKnown :
    (format : Format) (checks : List CheckView) → AllKnown (map (api_check format) checks)
checks-AllKnown format [] = tt
checks-AllKnown format (c ∷ checks) =
    (publishable_reason-IsKnown c.reason_code, checks-AllKnown format checks)

services-AllKnown :
    (format : Format) (services : List ServiceView)
    → AllServicesKnown (map (api_service format) services)
services-AllKnown format [] = tt
services-AllKnown format (svc ∷ services) =
    (checks-AllKnown format svc.checks, services-AllKnown format services)

-- the keys of the services, each with those of its checks
abbrev pub published_keys : List ApiService → List (String × List String)
published_keys = map λ svc. (svc.key, map (λ c. c.key) svc.checks)

abbrev pub registered_keys : List Service → List (String × List String)
registered_keys = map λ svc. (svc.key, map (λ c. c.key) svc.checks)

key-check_view :
    (catalog : Catalog) (chk : Check) (current : Option Current)
    → (check_view catalog chk current).key ≡ chk.key
key-check_view catalog chk none = refl
key-check_view catalog chk (some cur) = refl

module _ (lang : Lang) (opts : Options) (db : Stored) where
  keys-checks :
      (checks : List Check)
      → map
          (λ c. c.key)
          (map
            (api_check db.format)
            (map (λ chk. check_view (catalog_for lang) chk (db.current chk.key)) checks))
        ≡ map (λ c. c.key) checks
  keys-checks [] = refl
  keys-checks (chk ∷ checks) =
      rw (key-check_view (catalog_for lang) chk (db.current chk.key), keys-checks checks) refl

  keys-services :
      (services : List Service)
      → published_keys (map (api_service db.format) (map (service_view lang opts db) services))
        ≡ registered_keys services
  unfolding service_view
  keys-services [] = refl
  keys-services (svc ∷ services) = rw (keys-checks svc.checks, keys-services services) refl

  -- Whatever is stored, the status answer lists the services of the registry and the checks of each,
  -- in their order, and every reason code in it is one of the known ones.
  pub status_payload-build :
      let services = (status_payload db.format (build lang opts db)).services in
      (published_keys services ≡ registered_keys opts.services) × AllServicesKnown services
  unfolding status_payload build
  status_payload-build =
      (keys-services opts.services, services-AllKnown db.format (build lang opts db).services)
