-- ===== src/Examples/Logins.antt =====
-- Runs of the probes (internal/probe) against a small network: the first request is answered with a
-- login form, a submitted form with a page of the service.
use is_ntust_down.Prelude.{
  ◌*◌, ℕ, cut, trim_space, trim_left, is_space, to_upper, codes_key, refl, ◌+◌, ◌≤◌, ◌<◌, ◌≡◌, refl,
  String, true, Option, none, some, List, [], ◌∷◌, Text, codes, ◌⊎◌, length, same_text, contains,
  has_prefix, to_lower, equal_fold, trim_right_slash, ◌↔◌,
}
use is_ntust_down.Probe.{State, up, degraded, down, unknown, retired, derive_service_state}
use is_ntust_down.Probe.Derive.{derive_service_state_cases, tally}
use is_ntust_down.Probe.Form.{
  find_login_form, parse_forms, walk, walk_all, collect, collect_all, attr, set_field, Node,
  element, nil, cons, Form, get, find_oidc_bridge,
}
use is_ntust_down.Probe.Session.{
  Reply, page, failed, timed_out, Sent, Remote, resolve_bridges, is_sso_login_page,
}
use is_ntust_down.Probe.Session.Redirects.{wire_logins}
use is_ntust_down.Probe.Session.Credentials.{logins}
use is_ntust_down.Probe.SsoForm.{submit_login, add_missing, fill_in}
use is_ntust_down.Probe.Moodle.{MoodleConfig, SiteInfo, Codecs}
use is_ntust_down.Probe.LaunchToken.{extract_mobile_token, decode_ws_token}
use is_ntust_down.Probe.Moodle
use is_ntust_down.Probe.CourseSelection.{CourseSelectionConfig}
use is_ntust_down.Probe.CourseSelection
use is_ntust_down.Store.Table.{lookup}
use is_ntust_down.Probe.Posted.{values}
use is_ntust_down.Probe.Posted.Credentials.{values-fill_in}
use is_ntust_down.Probe.Login.MoodleLogin.{run_sso_login-logins, run_sso_login-up, confirms}
use is_ntust_down.Probe.Login.CourseLogin.{course-run_sso_login-logins}
use is_ntust_down.Probe.Public.{MailConfig, run_tigerduck}

abbrev input : String → Node
input name =
    element (codes "input")
      (record { key = codes "name"; val = codes name }
        ∷ record { key = codes "value"; val = codes "v" }
        ∷ [])
      nil

-- a form with a user name, a password and an anti-forgery token
abbrev login_page : Node
login_page = element (codes "form") [] (
    cons (input "Username")
      (cons (input "Password") (cons (input "__RequestVerificationToken") nil)))

abbrev page_of : String → String → Reply
page_of host body = page record {
  body = codes body;
  url = record { text = codes "https://host/path"; host = codes host };
  status = 200;
}

abbrev answer : List Sent → Reply
answer [] = failed timed_out
answer (Sent.post target form referer origin ∷ sent) =
    page_of "svc" "location=moodlemobile://token=dA=="
answer (Sent.get url ∷ sent) = page_of "sso" ""
answer (Sent.get_json url ∷ sent) = page_of "sso" "t"

abbrev parse : Text → Option Node
parse [] = some login_page
parse (c ∷ body) = none

abbrev pub network : Remote
network = record {
  respond = answer;
  resolve = λ base ref. some (record { text = ref; host = codes "sso" });
  parse_html = parse;
  new_session = true;
  encode_query = λ q. [];
  elapsed = length;
}

abbrev pub codecs : Codecs
codecs = record {
  site_info = λ body. some (record { username = codes "b11"; site_name = []; exception = [] });
  base64 = record {
    std = λ s. some (codes "s:::t");
    raw_std = λ s. none;
    url = λ s. none;
    raw_url = λ s. none;
  };
  random = some (1 ∷ []);
}

abbrev pub moodle : MoodleConfig
moodle = record {
  base_url = codes "https://moodle";
  sso_host = codes "sso";
  username = codes "b11";
  password = codes "pw";
}

abbrev courses : CourseSelectionConfig
courses = record {
  base_url = codes "https://svc";
  host = codes "svc";
  probe_path = codes "/ChooseList";
  sso_host = codes "sso";
  username = codes "b11";
  password = codes "pw";
}

-- a network that redirects every call without end
abbrev pub looping : List Sent → ℕ
looping sent = 100

run_sso_login-logins_example :
    (logins (Moodle.run_sso_login network codecs moodle []).1 ≤ logins [] + 1)
    × (wire_logins looping (Moodle.run_sso_login network codecs moodle []).1 ≤ 6 * (logins [] + 1))
run_sso_login-logins_example = run_sso_login-logins network codecs moodle looping []

course-run_sso_login-logins_example :
    (logins (CourseSelection.run_sso_login network courses []).1 ≤ logins [] + 1)
    × (wire_logins looping (CourseSelection.run_sso_login network courses []).1
        ≤ 6 * (logins [] + 1))
course-run_sso_login-logins_example = course-run_sso_login-logins network courses looping []

moodle_is_up : (Moodle.run_sso_login network codecs moodle []).0.state ≡ up
unfolding Moodle.run_sso_login Moodle.resolve_token extract_mobile_token decode_ws_token cut
    find_oidc_bridge find_login_form parse_forms walk walk_all collect collect_all attr submit_login
    fill_in set_field get contains has_prefix same_text to_lower equal_fold trim_right_slash
    add_missing
moodle_is_up = refl

courses_are_up : (CourseSelection.run_sso_login network courses []).0.state ≡ up
unfolding CourseSelection.run_sso_login resolve_bridges find_oidc_bridge find_login_form parse_forms
    walk walk_all collect collect_all attr fill_in set_field get contains has_prefix same_text
    to_lower equal_fold trim_right_slash is_sso_login_page CourseSelection.log_in
courses_are_up = refl

run_sso_login-up_example :
    confirms codecs moodle (answer (Moodle.run_sso_login network codecs moodle []).1) ≡ true
run_sso_login-up_example = run_sso_login-up network codecs moodle [] moodle_is_up

abbrev login_form : Form
login_form = record {
  id = [];
  action = codes "/login";
  fields =
      record { name = codes "Username"; value = [] }
      ∷ record { name = codes "Password"; value = [] }
      ∷ record { name = codes "token"; value = codes "x" }
      ∷ [];
}

abbrev half_known : List State
half_known = up ∷ unknown ∷ []

derive_service_state_cases_example :
    let ups = tally up half_known in
    let degs = tally degraded half_known in
    let downs = tally down half_known in
    let s = derive_service_state half_known in
    ((s ≡ up) ↔ ((0 < ups) × (degs ≡ 0) × (downs ≡ 0)))
    × ((s ≡ down) ↔ ((0 < downs) × (ups ≡ 0) × (degs ≡ 0)))
    × ((s ≡ degraded) ↔ ((0 < degs) ⊎ ((0 < ups) × (0 < downs))))
    × ((s ≡ retired) ↔ (
        (0 < tally retired half_known) × (ups + degs + downs ≡ 0) × (tally unknown half_known ≡ 0)))
derive_service_state_cases_example = derive_service_state_cases half_known

abbrev mail : MailConfig
mail = record {
  base_url = codes "https://mail";
  login_path = codes "/login";
  smtp_hosts = codes "mg1" ∷ codes "mg2" ∷ [];
}

-- both endpoints answer "ok"
abbrev read_ok : Text → Option Text
read_ok body = some (codes "ok")

tigerduck_is_up :
    (run_tigerduck network read_ok read_ok
      (codes "https://td")
      (codes "ok")
      (codes "/health")
      []).0.state
    ≡ up
unfolding run_tigerduck same_text trim_right_slash
tigerduck_is_up = refl

values-fill_in_example :
    lookup (codes "Username") (values (fill_in (codes " b11 ") (codes "pw") login_form).fields)
    ≡ some (codes "B11")
unfolding trim_space trim_left is_space to_upper same_text
values-fill_in_example =
    values-fill_in (codes " b11 ") (codes "pw") (codes "Username") login_form refl
