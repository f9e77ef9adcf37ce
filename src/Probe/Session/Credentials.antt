-- ===== src/Probe/Session/Credentials.antt =====
-- How often a run of internal/probe presents a password, counted over the requests that it sends.
use is_ntust_down.Prelude.{ℕ, zero, suc, ◌≡◌, refl, Bool, false, List, Text, count_by, arith}
use is_ntust_down.Probe.Form.{has, password, find_oidc_bridge-no_credentials}
use is_ntust_down.Probe.Session.{Sent, post, Remote, Page, forms_of, resolve_bridges}

abbrev pub presents_password : Sent → Bool
presents_password (post url form referer origin) = has form password
presents_password _ = false

abbrev pub logins : List Sent → ℕ
logins sent = count_by presents_password sent

module _ (net : Remote) where
  -- Following bridges presents no password.
  pub resolve_bridges-logins :
      (sso_host : Text) (steps : ℕ) (current : Page) (sent : List Sent)
      → logins (resolve_bridges net sso_host steps current sent).2 ≡ logins sent
  unfolding resolve_bridges
  resolve_bridges-logins sso_host zero current sent = refl
  resolve_bridges-logins sso_host (suc steps) current sent = grind (
    arith,
    resolve_bridges-logins sso_host steps,
    find_oidc_bridge-no_credentials (forms_of net current),
  )
