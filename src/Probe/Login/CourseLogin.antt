-- ===== src/Probe/Login/CourseLogin.antt =====
-- CourseSelectionSSOLoginProbe of internal/probe/courseselection.go.
use is_ntust_down.Prelude.{
  ◌*◌, ℕ, zero, suc, ◌+◌, ◌≤◌, ◌≡◌, refl, Bool, true, false, Option, none, some, List, arith, ◌&&◌,
  not, leb, equal_fold,
}
use is_ntust_down.Probe.{up}
use is_ntust_down.Probe.Session.{
  Sent, Remote, Page, Reply, Failure, page, failed, max_redirects, resolve_bridges,
}
use is_ntust_down.Probe.Session.Redirects.{wire_logins, wire_logins-le}
use is_ntust_down.Probe.Session.Credentials.{logins, resolve_bridges-logins}
use is_ntust_down.Probe.SsoForm.{has-fill_in}
use is_ntust_down.Probe.CourseSelection.{
  CourseSelectionConfig, log_in, at_prompt, after_login, login_from, run_sso_login,
}

module _ (net : Remote) (cfg : CourseSelectionConfig) where
  after_login-logins :
      (reply : Reply) (sent : List Sent) → logins (after_login net cfg reply sent).1 ≡ logins sent
  after_login-logins (failed e) sent = refl
  after_login-logins (page p) sent = resolve_bridges-logins net cfg.sso_host max_redirects p sent

  -- A login is submitted unless its target does not resolve, and once.
  log_in-logins :
      (p : Page) (sent : List Sent) → logins (log_in net cfg p sent).1 ≤ suc (logins sent)
  unfolding log_in
  log_in-logins p sent = grind (arith, after_login-logins)

  at_prompt-logins :
      (p : Page) (error : Option Failure) (sent : List Sent)
      → logins (at_prompt net cfg p error sent).1 ≤ suc (logins sent)
  at_prompt-logins p none sent = ground (arith, log_in-logins p sent)
  at_prompt-logins p (some e) sent = omega arith

  login_from-logins :
      (reply : Reply) (sent : List Sent)
      → logins (login_from net cfg reply sent).1 ≤ suc (logins sent)
  login_from-logins (failed e) sent = omega arith
  login_from-logins (page p) sent =
      let (p', error, sent') = resolve_bridges net cfg.sso_host max_redirects p sent in
      omega (
        arith,
        at_prompt-logins p' error sent',
        resolve_bridges-logins net cfg.sso_host max_redirects p sent,
      )

  course-run_sso_login-submits :
      (sent : List Sent) → logins (run_sso_login net cfg sent).1 ≤ logins sent + 1
  unfolding run_sso_login
  course-run_sso_login-submits sent = grind (arith, login_from-logins)

  -- A run of the course selection login probe calls the session with the password once at most, and
  -- puts it on the wire six times at most, whatever the network answers: CheckRedirect lets a call
  -- follow five redirects, each of which may repeat what was posted.
  pub course-run_sso_login-logins :
      (asked : List Sent → ℕ) (sent : List Sent)
      → (logins (run_sso_login net cfg sent).1 ≤ logins sent + 1)
        × (wire_logins asked (run_sso_login net cfg sent).1 ≤ 6 * (logins sent + 1))
  course-run_sso_login-logins asked sent = (
    course-run_sso_login-submits sent,
    wire_logins-le asked (run_sso_login net cfg sent).1 (logins sent + 1)
        (course-run_sso_login-submits sent),
  )

-- The reply that a walk ends on, if no error stopped it, is a page of the service's own host.
abbrev pub lands : CourseSelectionConfig → Reply → Bool
lands cfg (failed e) = false
lands cfg (page p) = equal_fold p.url.host cfg.host && not (leb 400 p.status)

module _ (net : Remote) (cfg : CourseSelectionConfig) where
  resolve_bridges-reply :
      (steps : ℕ) (p : Page) (sent : List Sent)
      → net.respond sent ≡ page p
      → let (p', error, sent') = resolve_bridges net cfg.sso_host steps p sent in
        error ≡ none → net.respond sent' ≡ page p'
  unfolding resolve_bridges
  resolve_bridges-reply zero p sent h k = h
  resolve_bridges-reply (suc steps) p sent h k = grind (arith, resolve_bridges-reply steps)

  after_login-up :
      (reply : Reply) (sent : List Sent)
      → net.respond sent ≡ reply
      → (after_login net cfg reply sent).0.state ≡ up
      → lands cfg (net.respond (after_login net cfg reply sent).1) ≡ true
  after_login-up (failed e) sent r h = cc
  after_login-up (page p) sent r h = ground (arith, resolve_bridges-reply max_redirects p sent r)

  log_in-up :
      (p : Page) (sent : List Sent)
      → (log_in net cfg p sent).0.state ≡ up
      → (lands cfg (net.respond (log_in net cfg p sent).1) ≡ true)
        × (logins (log_in net cfg p sent).1 ≡ suc (logins sent))
  unfolding log_in
  log_in-up p sent h = grind (arith, after_login-up, after_login-logins, has-fill_in)

  at_prompt-up :
      (p : Page) (error : Option Failure) (sent : List Sent)
      → (at_prompt net cfg p error sent).0.state ≡ up
      → (lands cfg (net.respond (at_prompt net cfg p error sent).1) ≡ true)
        × (logins (at_prompt net cfg p error sent).1 ≡ suc (logins sent))
  at_prompt-up p none sent h = ground (arith, log_in-up p sent)
  at_prompt-up p (some e) sent h = cc

  login_from-up :
      (reply : Reply) (sent : List Sent)
      → (login_from net cfg reply sent).0.state ≡ up
      → (lands cfg (net.respond (login_from net cfg reply sent).1) ≡ true)
        × (logins (login_from net cfg reply sent).1 ≡ suc (logins sent))
  login_from-up (failed e) sent h = cc
  login_from-up (page p) sent h =
      let (p', error, sent') = resolve_bridges net cfg.sso_host max_redirects p sent in
      rw (← resolve_bridges-logins net cfg.sso_host max_redirects p sent)
        (at_prompt-up p' error sent' h)

  -- The course selection login probe reports up only if it has submitted the password exactly once
  -- and the last request was answered with a page of the service's own host and a status below
  -- 400.
  course-run_sso_login-up :
      (sent : List Sent)
      → (run_sso_login net cfg sent).0.state ≡ up
      → (lands cfg (net.respond (run_sso_login net cfg sent).1) ≡ true)
        × (logins (run_sso_login net cfg sent).1 ≡ logins sent + 1)
  unfolding run_sso_login
  course-run_sso_login-up sent h = grind (arith, login_from-up)
