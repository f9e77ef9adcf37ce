-- ===== src/Probe/Structural.antt =====
-- The walk to the credential prompt that MoodleSSOStructuralProbe (internal/probe/moodle.go) and
-- CourseSelectionSSOStructuralProbe (internal/probe/courseselection.go) share, from the page that
-- their first request returned.
use is_ntust_down.Prelude.{
  ℕ, Option, none, some, List, Text, codes, contains, is_empty, if◌then◌else◌,
}
use is_ntust_down.Probe.{Result, up_result, down_result, sso_form_missing}
use is_ntust_down.Probe.Form.{Form, find_login_form, get}
use is_ntust_down.Probe.Session.{
  Page, Failure, Reply, page, failed, Sent, Remote, forms_of, max_redirects, classify_transport,
  resolve_bridges,
}

abbrev pub verification_token : Text
verification_token = codes "__RequestVerificationToken"

-- a credential form that could be submitted: it has an anti-forgery token
abbrev pub usable : Option Form → Option Form
usable none = none
usable (some f) = if is_empty (get f.fields verification_token) then none else some f

module _ (net : Remote) (sso_host : Text) where
  -- what the page where the walk ended says
  abbrev pub judge_prompt : ℕ → Page → Option Failure → Result
  judge_prompt latency p (some e) = down_result latency p.status (classify_transport e)
  judge_prompt latency p none = elim (usable (find_login_form (forms_of net p))) [
    | none ↦ down_result latency p.status sso_form_missing
    | some form ↦
        if contains p.url.host sso_host
        then up_result latency p.status
        else down_result latency p.status sso_form_missing
  ]

  unfoldable pub walk_to_prompt : Reply → List Sent → Result × List Sent
  walk_to_prompt (failed e) sent = (down_result (net.elapsed sent) 0 (classify_transport e), sent)
  walk_to_prompt (page p) sent =
      let (p', error, sent') = resolve_bridges net sso_host max_redirects p sent in
      (judge_prompt (net.elapsed sent') p' error, sent')
