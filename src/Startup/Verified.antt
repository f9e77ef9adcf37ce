-- ===== src/Startup/Verified.antt =====
-- What runVerifySSO of cmd/isntustdown/main.go reports, and what it costs.
use is_ntust_down.Prelude.{
  ℕ, ◌*◌, ◌+◌, ◌≤◌, ◌≡◌, inl, inr, refl, true, false, List, Text, Option, arith, Bool-cases,
}
use is_ntust_down.Probe.{State, up, degraded, down, unknown, retired, same_state, Result}
use is_ntust_down.Probe.Session.{Remote, Sent}
use is_ntust_down.Probe.Session.Redirects.{wire_logins, wire_logins-le}
use is_ntust_down.Probe.Session.Credentials.{logins}
use is_ntust_down.Probe.Moodle.{Codecs, run_sso_login as moodle_login}
use is_ntust_down.Probe.CourseSelection.{run_sso_login as course_login}
use is_ntust_down.Probe.Login.MoodleLogin.{confirms, run_sso_login-logins, run_sso_login-up}
use is_ntust_down.Probe.Login.CourseLogin.{course-run_sso_login-logins}
use is_ntust_down.Config.Settings.{Config, credentials_present}
use is_ntust_down.Startup.{run_verify_sso, moodle_config_of, course_selection_config_of, exit_of}

same_state-up : (s : State) → same_state s up ≡ true → s ≡ up
same_state-up up h = refl
same_state-up degraded h = cc
same_state-up down h = cc
same_state-up unknown h = cc
same_state-up retired h = cc

exit_of-up : (m c : Result) → exit_of m c ≡ 0 → (m.state ≡ up) × (c.state ≡ up)
exit_of-up m c h = elim (Bool-cases (same_state m.state up)) [
  | inl a ↦ elim (Bool-cases (same_state c.state up)) [
    | inl b ↦ (same_state-up m.state a, same_state-up c.state b)
    | inr b ↦ ground arith
  ]
  | inr a ↦ ground arith
]

module _ (parse_url : Text → Option (Text × Text)) (net : Remote) (codec : Codecs) (c : Config)
    (asked : List Sent → ℕ) (sent : List Sent) where
  -- The verification calls its sessions with the password twice at most, and puts it on the wire twelve
  -- times at most with the redirects that CheckRedirect lets them follow. It exits with 0 only if credentials are
  -- configured, the last request of the Moodle login was answered with a site info that names the
  -- configured student and no error, and the course selection login was found up; and it exits with 2,
  -- having sent nothing, if no credentials are configured.
  pub run_verify_sso_lem :
      let (report, sent') = run_verify_sso parse_url net codec c sent in
      let moodle = moodle_config_of parse_url c in
      let sent₁ = (moodle_login net codec moodle sent).1 in
      (logins sent' ≤ logins sent + 2)
      × (wire_logins asked sent' ≤ 6 * (logins sent + 2))
      × (report.exit ≡ 0
          → (credentials_present c ≡ true)
            × (confirms codec moodle (net.respond sent₁) ≡ true)
            × ((course_login net (course_selection_config_of parse_url c) sent₁).0.state ≡ up))
      × (credentials_present c ≡ false → (report.exit ≡ 2) × (sent' ≡ sent))
  unfolding run_verify_sso
  run_verify_sso_lem = elim (Bool-cases (credentials_present c)) [
    | inl e ↦
        let moodle = moodle_config_of parse_url c in
        let courses = course_selection_config_of parse_url c in
        let (m, sent₁) = moodle_login net codec moodle sent in
        let (l, sent₂) = course_login net courses sent₁ in
        let twice : logins sent₂ ≤ logins sent + 2 = omega (
          arith,
          (run_sso_login-logins net codec moodle asked sent).0,
          (course-run_sso_login-logins net courses asked sent₁).0,
        ) in
        rw e (
          twice,
          wire_logins-le asked sent₂ (logins sent + 2) twice,
          λ h.
              let (a, b) = exit_of-up m (course_login net courses sent₁).0 h in
              (refl, run_sso_login-up net codec moodle sent a, b),
          λ f. cc,
        )
    | inr e ↦ rw e (
      omega arith,
      wire_logins-le asked sent (logins sent + 2) (omega arith),
      λ h. cc,
      λ f. (refl, refl),
    )
  ]
