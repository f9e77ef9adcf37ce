-- ===== src/Examples/Verify.antt =====
-- A verification of the credentials (runVerifySSO of cmd/isntustdown/main.go).
use is_ntust_down.Prelude.{◌*◌, ◌+◌, ◌≤◌, ◌≡◌, true, false, []}
use is_ntust_down.Probe.{up}
use is_ntust_down.Probe.Session.Redirects.{wire_logins}
use is_ntust_down.Probe.Session.Credentials.{logins}
use is_ntust_down.Probe.Moodle.{run_sso_login as moodle_login}
use is_ntust_down.Probe.CourseSelection.{run_sso_login as course_login}
use is_ntust_down.Probe.Login.MoodleLogin.{confirms}
use is_ntust_down.Config.Settings.{credentials_present}
use is_ntust_down.Startup.{run_verify_sso, moodle_config_of, course_selection_config_of}
use is_ntust_down.Startup.Verified.{run_verify_sso_lem}
use is_ntust_down.Examples.Logins.{network, codecs, looping}
use is_ntust_down.Examples.Settings.{parsers, settings}

run_verify_sso_lem_example :
    let parse_url = parsers.parse_url in
    let (report, sent') = run_verify_sso parse_url network codecs settings [] in
    let moodle = moodle_config_of parse_url settings in
    let sent₁ = (moodle_login network codecs moodle []).1 in
    (logins sent' ≤ logins [] + 2)
    × (wire_logins looping sent' ≤ 6 * (logins [] + 2))
    × (report.exit ≡ 0
        → (credentials_present settings ≡ true)
          × (confirms codecs moodle (network.respond sent₁) ≡ true)
          × ((course_login network (course_selection_config_of parse_url settings) sent₁).0.state
              ≡ up))
    × (credentials_present settings ≡ false → (report.exit ≡ 2) × (sent' ≡ []))
run_verify_sso_lem_example = run_verify_sso_lem parsers.parse_url network codecs settings looping []
