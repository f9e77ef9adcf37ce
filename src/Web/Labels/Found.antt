-- ===== src/Web/Labels/Found.antt =====
-- Which messages the page's labels find in the catalogues.
use is_ntust_down.Prelude.{◌≡◌, refl, String, true, false, text_key}
use is_ntust_down.Probe.{
  State, up, degraded, down, unknown, retired, ReasonCode, reason_none, unreachable, timeout,
  http_4xx, http_5xx, unexpected_body, sso_form_missing, sso_login_rejected, sso_bridge_missing,
  token_invalid, username_mismatch, breaker_open, reason_retired, login_form_missing, mx_partial,
  gate_closed, not_configured, sso_redirect_failed, paused_after_failure, other, is_known_reason,
  is_none,
}
use is_ntust_down.Store.Table.{lookup}
use is_ntust_down.Web.I18n.{Lang, zh_tw, en, catalog_for}
use is_ntust_down.Web.I18n.En.{en_us}
use is_ntust_down.Web.I18n.Zh.{zh_tw_catalog}
use is_ntust_down.Web.I18n.Complete.{is_missing}
use is_ntust_down.Web.Labels.{state_id, reason_id, banner_id}

abbrev HasMessage : Lang → String → Type 0
HasMessage l id = is_missing (catalog_for l) id ≡ false

state_found : (l : Lang) (s : State) → HasMessage l (state_id s) × HasMessage l (banner_id s)
unfolding en_us zh_tw_catalog lookup
state_found zh_tw up = (refl, refl)
state_found zh_tw degraded = (refl, refl)
state_found zh_tw down = (refl, refl)
state_found zh_tw unknown = (refl, refl)
state_found zh_tw retired = (refl, refl)
state_found en up = (refl, refl)
state_found en degraded = (refl, refl)
state_found en down = (refl, refl)
state_found en unknown = (refl, refl)
state_found en retired = (refl, refl)

reason_found :
    (l : Lang) (r : ReasonCode)
    → is_known_reason r ≡ true
    → is_none r ≡ false
    → HasMessage l (reason_id r)
unfolding en_us zh_tw_catalog lookup is_known_reason
reason_found zh_tw unreachable k h = refl
reason_found zh_tw timeout k h = refl
reason_found zh_tw http_4xx k h = refl
reason_found zh_tw http_5xx k h = refl
reason_found zh_tw unexpected_body k h = refl
reason_found zh_tw sso_form_missing k h = refl
reason_found zh_tw sso_login_rejected k h = refl
reason_found zh_tw sso_bridge_missing k h = refl
reason_found zh_tw token_invalid k h = refl
reason_found zh_tw username_mismatch k h = refl
reason_found zh_tw breaker_open k h = refl
reason_found zh_tw reason_retired k h = refl
reason_found zh_tw login_form_missing k h = refl
reason_found zh_tw mx_partial k h = refl
reason_found zh_tw gate_closed k h = refl
reason_found zh_tw not_configured k h = refl
reason_found zh_tw sso_redirect_failed k h = refl
reason_found zh_tw paused_after_failure k h = refl
reason_found zh_tw reason_none k h = cc
reason_found zh_tw (other s) k h = cc
reason_found en unreachable k h = refl
reason_found en timeout k h = refl
reason_found en http_4xx k h = refl
reason_found en http_5xx k h = refl
reason_found en unexpected_body k h = refl
reason_found en sso_form_missing k h = refl
reason_found en sso_login_rejected k h = refl
reason_found en sso_bridge_missing k h = refl
reason_found en token_invalid k h = refl
reason_found en username_mismatch k h = refl
reason_found en breaker_open k h = refl
reason_found en reason_retired k h = refl
reason_found en login_form_missing k h = refl
reason_found en mx_partial k h = refl
reason_found en gate_closed k h = refl
reason_found en not_configured k h = refl
reason_found en sso_redirect_failed k h = refl
reason_found en paused_after_failure k h = refl
reason_found en reason_none k h = cc
reason_found en (other s) k h = cc

-- In each language, every state has a message for its label and one for the banner, and every known
-- reason but the empty one has a message.
labels_found :
    (l : Lang) (s : State) (r : ReasonCode)
    → is_known_reason r ≡ true
    → is_none r ≡ false
    → (is_missing (catalog_for l) (state_id s) ≡ false)
      × (is_missing (catalog_for l) (banner_id s) ≡ false)
      × (is_missing (catalog_for l) (reason_id r) ≡ false)
labels_found l s r k h =
    let (state, banner) = state_found l s in (state, banner, reason_found l r k h)
