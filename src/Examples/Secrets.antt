-- ===== src/Examples/Secrets.antt =====
-- A logged URL with a token in it, and the page that ends a mobile launch (internal/probe).
use is_ntust_down.Prelude.{
  has_prefix, equal_fold, same_text, to_lower, List, contains, ◌≡◌, refl, none, [], ◌∷◌, ◌++◌,
  codes,
}
use is_ntust_down.Probe.Redact.{redact, ends_in_name, is_value}
use is_ntust_down.Probe.Redact.Secrecy.{redact-secret}
use is_ntust_down.Probe.{up}
use is_ntust_down.Probe.Session.{Page, Reply, Sent, Remote, page, failed, timed_out, get}
use is_ntust_down.Probe.LaunchToken.{marker}
use is_ntust_down.Probe.Moodle.{run_sso_login, ws_url, launch_url}
use is_ntust_down.Probe.Moodle.Launched.{IsLaunchPage, run_sso_login-launched}
use is_ntust_down.Examples.Logins.{network, codecs, moodle}

redact-secret_example :
    redact (codes "GET /x?wstoken" ++ b'=' ∷ (codes "abc" ++ codes "&y=1"))
    ≡ redact (codes "GET /x?wstoken" ++ b'=' ∷ (codes "z9" ++ codes "&y=1"))
unfolding ends_in_name is_value
redact-secret_example =
    redact-secret (codes "GET /x?wstoken") (codes "abc") (codes "z9") (codes "&y=1") refl
      (refl, refl) (refl, refl)

abbrev last_page : Page
last_page = record {
  body = codes "<a href=\"" ++ (marker ++ (codes "dA==" ++ codes "\">"));
  url = record { text = codes "https://moodle/launch"; host = codes "moodle" };
  status = 200;
}

-- every request is answered with the launch page, which the webservice's decoder takes
abbrev answer_in_turn : List Sent → Reply
answer_in_turn [] = failed timed_out
answer_in_turn (last ∷ sent) = page last_page

abbrev signed_in : Remote
signed_in = record network { respond = answer_in_turn }

last_page-IsLaunchPage : IsLaunchPage codecs.base64 last_page.body (codes "t")
unfolding contains has_prefix
last_page-IsLaunchPage = record {
  before = codes "<a href=\"";
  payload = codes "dA==";
  rest = codes "\">";
  signature = codes "s";
  private = none;
  parts = refl;
  first_marker = refl;
  some_payload = refl;
  payload_chars = refl;
  payload_ends = refl;
  decodes = refl;
  signature_whole = refl;
  token_whole = refl;
  some_token = refl;
}

run_sso_login-launched_example :
    ((run_sso_login signed_in codecs moodle []).0.state ≡ up)
    × ((run_sso_login signed_in codecs moodle []).1
        ≡ get (ws_url signed_in codecs moodle (codes "t"))
          ∷ get (launch_url signed_in codecs moodle (codes "01"))
          ∷ [])
unfolding equal_fold same_text to_lower
run_sso_login-launched_example =
    run_sso_login-launched signed_in codecs moodle [] (codes "01") (codes "t") last_page last_page
      refl refl refl refl refl last_page-IsLaunchPage refl
      (record { username = codes "b11"; site_name = []; exception = [] }, refl, refl, refl)
