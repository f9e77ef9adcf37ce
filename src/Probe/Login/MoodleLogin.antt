-- ===== src/Probe/Login/MoodleLogin.antt =====
-- MoodleSSOLoginProbe of internal/probe/moodle.go: one submission at most.
use is_ntust_down.Prelude.{
  ◌*◌, ℕ, zero, suc, ◌+◌, ◌≤◌, ◌≡◌, refl, Bool, true, false, none, some, List, Text, arith,
  if◌then◌else◌, ◌&&◌, not, is_empty, equal_fold,
}
use is_ntust_down.Probe.{up, same_state}
use is_ntust_down.Probe.Form.{Form, find_oidc_bridge-no_credentials}
use is_ntust_down.Probe.Session.{Sent, Remote, Page, Reply, page, failed, forms_of, max_redirects}
use is_ntust_down.Probe.Session.Redirects.{wire_logins, wire_logins-le}
use is_ntust_down.Probe.Session.Credentials.{logins}
use is_ntust_down.Probe.SsoForm.{submit_login}
use is_ntust_down.Probe.Moodle.{
  MoodleConfig, Codecs, Resolved, found, terminal, resolve_token, verify, login_from, run_sso_login,
}

abbrev left : Bool → ℕ
left submitted = if submitted then 0 else 1

submit_login-logins :
    (net : Remote) (user pass : Text) (p : Page) (form : Form) (sent : List Sent)
    → logins (submit_login net user pass p form sent).1 ≤ suc (logins sent)
unfolding submit_login
submit_login-logins net user pass p form sent = ground arith

module _ (net : Remote) (codec : Codecs) (cfg : MoodleConfig) where
  resolve_token-logins :
      (rounds : ℕ) (submitted : Bool) (p : Page) (sent : List Sent)
      → logins (resolve_token net codec cfg rounds submitted p sent).1
        ≤ logins sent + left submitted
  unfolding resolve_token
  resolve_token-logins zero submitted p sent = ground arith
  resolve_token-logins (suc rounds) submitted p sent = grind (
    arith,
    resolve_token-logins rounds,
    find_oidc_bridge-no_credentials (forms_of net p),
    submit_login-logins net cfg.username cfg.password p,
  )

  run_sso_login-submits :
      (sent : List Sent) → logins (run_sso_login net codec cfg sent).1 ≤ logins sent + 1
  unfolding run_sso_login
  run_sso_login-submits sent = grind (arith, resolve_token-logins max_redirects false)

  -- A run of the Moodle login probe calls the session with the password once at most, and puts it on
  -- the wire six times at most, whatever the network answers: CheckRedirect lets a call follow five
  -- redirects, each of which may repeat what was posted.
  pub run_sso_login-logins :
      (asked : List Sent → ℕ) (sent : List Sent)
      → (logins (run_sso_login net codec cfg sent).1 ≤ logins sent + 1)
        × (wire_logins asked (run_sso_login net codec cfg sent).1 ≤ 6 * (logins sent + 1))
  run_sso_login-logins asked sent = (
    run_sso_login-submits sent,
    wire_logins-le asked (run_sso_login net codec cfg sent).1 (logins sent + 1)
        (run_sso_login-submits sent),
  )

-- The webservice names the configured student and reports no error.
abbrev pub confirms : Codecs → MoodleConfig → Reply → Bool
confirms codec cfg (failed e) = false
confirms codec cfg (page p) = elim (codec.site_info p.body) [
  | none ↦ false
  | some info ↦ is_empty info.exception && equal_fold info.username cfg.username
]

abbrev not_up : Resolved → Bool
not_up (found t) = true
not_up (terminal r) = not (same_state r.state up)

module _ (net : Remote) (codec : Codecs) (cfg : MoodleConfig) where
  resolve_token-not_up :
      (rounds : ℕ) (submitted : Bool) (p : Page) (sent : List Sent)
      → not_up (resolve_token net codec cfg rounds submitted p sent).0 ≡ true
  unfolding resolve_token
  resolve_token-not_up zero submitted p sent = refl
  resolve_token-not_up (suc rounds) submitted p sent = grind (arith, resolve_token-not_up rounds)

  verify-up :
      (r : Resolved) (sent : List Sent)
      → not_up r ≡ true
      → (verify net codec cfg (r, sent)).0.state ≡ up
      → confirms codec cfg (net.respond (verify net codec cfg (r, sent)).1) ≡ true
  verify-up (terminal r) sent n h = ground arith
  verify-up (found t) sent n h = ground arith

  login_from-up :
      (reply : Reply) (sent : List Sent)
      → (login_from net codec cfg reply sent).0.state ≡ up
      → confirms codec cfg (net.respond (login_from net codec cfg reply sent).1) ≡ true
  login_from-up (failed e) sent h = cc
  login_from-up (page p) sent h =
      let (r, sent') = resolve_token net codec cfg max_redirects false p sent in
      verify-up r sent' (resolve_token-not_up max_redirects false p sent) h

  -- The Moodle login probe reports up only if the last request of the run was answered with a site
  -- info that names the configured student and no error.
  pub run_sso_login-up :
      (sent : List Sent)
      → (run_sso_login net codec cfg sent).0.state ≡ up
      → confirms codec cfg (net.respond (run_sso_login net codec cfg sent).1) ≡ true
  unfolding run_sso_login
  run_sso_login-up sent h = grind (arith, login_from-up)
