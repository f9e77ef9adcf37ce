-- ===== src/Probe/CourseSelection.antt =====
-- internal/probe/courseselection.go.
use is_ntust_down.Prelude.{
  ℕ, Option, none, some, List, [], ◌∷◌, ◌++◌, ◌||◌, Text, equal_fold, is_empty, trim_right_slash,
  leb, if◌then◌else◌,
}
use is_ntust_down.Probe.{
  Result, up_result, down_result, bare_result, unknown, unreachable, sso_form_missing,
  sso_redirect_failed, not_configured,
}
use is_ntust_down.Probe.Form.{Form, find_login_form}
use is_ntust_down.Probe.Session.{
  Page, Failure, Reply, page, failed, Sent, get, post, Remote, forms_of, max_redirects,
  classify_transport, classify_status, is_sso_login_page, resolve_bridges,
}
use is_ntust_down.Probe.SsoForm.{https_origin, fill_in}
use is_ntust_down.Probe.Structural.{walk_to_prompt}

pub record CourseSelectionConfig : Type 0 where
  pub base_url : Text
  -- the host of the base URL, or the empty text if it does not parse
  pub host : Text
  pub probe_path : Text
  pub sso_host : Text
  pub username : Text
  pub password : Text

-- what a plain fetch of a site says
abbrev pub judge_fetch : ℕ → Reply → Result
judge_fetch latency (failed e) = down_result latency 0 (classify_transport e)
judge_fetch latency (page p) =
    if leb 400 p.status
    then down_result latency p.status (classify_status p.status)
    else up_result latency p.status

module _ (net : Remote) (cfg : CourseSelectionConfig) where
  abbrev pub probe_url : Text
  probe_url = trim_right_slash cfg.base_url ++ cfg.probe_path

  -- CourseSelectionSiteProbe
  unfoldable pub run_site : List Sent → Result × List Sent
  run_site sent =
      let sent' = get cfg.base_url ∷ sent in
      if net.new_session
      then (judge_fetch (net.elapsed sent') (net.respond sent'), sent')
      else (down_result 0 0 unreachable, sent)

  -- CourseSelectionSSOStructuralProbe
  unfoldable pub run_sso_page : List Sent → Result × List Sent
  run_sso_page sent =
      let sent' = get probe_url ∷ sent in
      if net.new_session
      then walk_to_prompt net cfg.sso_host (net.respond sent') sent'
      else (down_result 0 0 unreachable, sent)

  -- where the walk after the login ended
  abbrev pub judge_landing : ℕ → Page → Option Failure → Result
  judge_landing latency p (some e) = down_result latency p.status (classify_transport e)
  judge_landing latency p none =
      if equal_fold p.url.host cfg.host
      then judge_fetch latency (page p)
      else down_result latency p.status sso_redirect_failed

  abbrev pub after_login : Reply → List Sent → Result × List Sent
  after_login (failed e) sent = (down_result (net.elapsed sent) 0 (classify_transport e), sent)
  after_login (page p) sent =
      let (p', error, sent') = resolve_bridges net cfg.sso_host max_redirects p sent in
      (judge_landing (net.elapsed sent') p' error, sent')

  -- the one submission, of the form that `find_login_form` finds or of an empty one
  abbrev pub form_or_empty : Option Form → Form
  form_or_empty none = record { id = []; action = []; fields = [] }
  form_or_empty (some f) = f

  unfoldable pub log_in : Page → List Sent → Result × List Sent
  log_in p sent =
      let form = form_or_empty (find_login_form (forms_of net p)) in
      elim (net.resolve p.url form.action) [
        | none ↦ (down_result (net.elapsed sent) p.status sso_form_missing, sent)
        | some target ↦
            let sent' =
              post target (fill_in cfg.username cfg.password form) p.url.text (https_origin p.url)
              ∷ sent in
            after_login (net.respond sent') sent'
      ]

  abbrev pub at_prompt : Page → Option Failure → List Sent → Result × List Sent
  at_prompt p (some e) sent = (down_result (net.elapsed sent) p.status (classify_transport e), sent)
  at_prompt p none sent =
      if is_sso_login_page net p cfg.sso_host
      then log_in p sent
      else (down_result (net.elapsed sent) p.status sso_form_missing, sent)

  abbrev pub login_from : Reply → List Sent → Result × List Sent
  login_from (failed e) sent = (down_result (net.elapsed sent) 0 (classify_transport e), sent)
  login_from (page p) sent =
      let (p', error, sent') = resolve_bridges net cfg.sso_host max_redirects p sent in
      at_prompt p' error sent'

  -- CourseSelectionSSOLoginProbe
  unfoldable pub run_sso_login : List Sent → Result × List Sent
  run_sso_login sent =
      if is_empty cfg.username || is_empty cfg.password
      then (bare_result unknown not_configured, sent)
      else let sent' = get probe_url ∷ sent in
        if net.new_session
        then login_from (net.respond sent') sent'
        else (down_result 0 0 unreachable, sent)
