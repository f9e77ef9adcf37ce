-- ===== src/Probe/Login/Requests.antt =====
-- How many requests a run of a login probe of internal/probe sends.
use is_ntust_down.Probe.Form.{Form}
use is_ntust_down.Probe.Moodle.{login_from as moodle_login_from, run_sso_login as moodle_login}
use is_ntust_down.Probe.CourseSelection.{
  login_from as course_login_from, run_sso_login as course_login,
}
