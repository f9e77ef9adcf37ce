-- ===== src/Probe/Public.antt =====
-- The probes that need no credentials at all: internal/probe/mail.go, internal/probe/querycourse.go and
-- internal/probe/tigerduck.go. The JSON decoder and the TCP dialogue are parameters.
use is_ntust_down.Prelude.{
  has_prefix, trim_space, ℕ, ◌+◌, ◌≡◌, Bool, true, false, Option, none, some, List, [], ◌∷◌, ◌++◌,
  ◌&&◌, Text, codes, same_text, trim_right_slash, is_empty, any_by, count_by, length, leb, ltb,
  ◌==◌, not, if◌then◌else◌, arith, ◌⊎◌, refl, ◌<◌, is_empty-length,
}
use is_ntust_down.Probe.{
  up, degraded, down, unknown, not_configured, mx_partial, unreachable, unexpected_body,
  login_form_missing, Result, up_result, down_result, bare_result,
}
use is_ntust_down.Probe.Form.{Form, has}
use is_ntust_down.Probe.Session.{
  Reply, page, failed, Sent, get, get_json, Remote, forms_of, classify_transport, classify_status,
}

pub record MailConfig : Type 0 where
  pub base_url : Text
  pub login_path : Text
  pub smtp_hosts : List Text

abbrev pub judge_fetch : ℕ → Reply → Result
judge_fetch latency (failed e) = down_result latency 0 (classify_transport e)
judge_fetch latency (page p) =
    if leb 400 p.status
    then down_result latency p.status (classify_status p.status)
    else up_result latency p.status

-- the normal login form of Mail2000
abbrev pub is_mail_form : Form → Bool
is_mail_form f = has f (codes "USERID") && has f (codes "PASSWD") && has f (codes "CLIENT_TOKEN")

module _ (net : Remote) where
  -- MailSiteProbe
  unfoldable pub run_mail_site : MailConfig → List Sent → Result × List Sent
  run_mail_site cfg sent =
      let sent' = get cfg.base_url ∷ sent in
      if net.new_session
      then (judge_fetch (net.elapsed sent') (net.respond sent'), sent')
      else (down_result 0 0 unreachable, sent)

  abbrev pub judge_login_page : ℕ → Reply → Result
  judge_login_page latency (failed e) = down_result latency 0 (classify_transport e)
  judge_login_page latency (page p) =
      if leb 400 p.status
      then down_result latency p.status (classify_status p.status)
      else if any_by is_mail_form (forms_of net p)
      then up_result latency p.status
      else down_result latency p.status login_form_missing

  -- MailLoginPageProbe
  unfoldable pub run_login_page : MailConfig → List Sent → Result × List Sent
  run_login_page cfg sent =
      let sent' = get (trim_right_slash cfg.base_url ++ cfg.login_path) ∷ sent in
      if net.new_session
      then (judge_login_page (net.elapsed sent') (net.respond sent'), sent')
      else (down_result 0 0 unreachable, sent)

  -- QueryCourseProbe; `semesters` decodes the body to the names of the semesters
  unfoldable pub run_query_course :
      (Text → Option (List Text)) → Text → List Sent → Result × List Sent
  run_query_course semesters url sent =
      let sent' = get_json url ∷ sent in
      let latency = net.elapsed sent' in
      elim net.new_session [
        | false ↦ (down_result 0 0 unreachable, sent)
        | true ↦ elim (net.respond sent') [
          | failed e ↦ (down_result latency 0 (classify_transport e), sent')
          | page p ↦
              if p.status == 200
              then elim (semesters p.body) [
                | some ((c ∷ name) ∷ rest) ↦ (up_result latency p.status, sent')
                | _ ↦ (down_result latency p.status unexpected_body, sent')
              ]
              else (down_result latency p.status (classify_status p.status), sent')
        ]
      ]

  -- TigerDuckV3Probe; the decoders read `status` and `api_base_path` from a body
  module _ (status_of api_base_path : Text → Option Text) (base_url expected : Text) where
    abbrev pub judge_version : ℕ → Reply → Result
    judge_version latency (failed e) = down_result latency 0 (classify_transport e)
    judge_version latency (page p) =
        if p.status == 200
        then elim (api_base_path p.body) [
          | none ↦ down_result latency p.status unexpected_body
          | some base ↦
              if same_text base expected
              then up_result latency p.status
              else down_result latency p.status unexpected_body
        ]
        else down_result latency p.status (classify_status p.status)

    abbrev pub is_healthy : Text → Bool
    is_healthy body = elim (status_of body) [
      | none ↦ false
      | some status ↦ same_text status (codes "ok")
    ]

    unfoldable pub run_tigerduck : Text → List Sent → Result × List Sent
    run_tigerduck probe_path sent =
        let sent' = get_json (trim_right_slash base_url ++ probe_path) ∷ sent in
        let latency = net.elapsed sent' in
        elim net.new_session [
          | false ↦ (down_result 0 0 unreachable, sent)
          | true ↦ elim (net.respond sent') [
            | failed e ↦ (down_result latency 0 (classify_transport e), sent')
            | page p ↦ elim (p.status == 200) [
              | false ↦ (down_result latency p.status (classify_status p.status), sent')
              | true ↦ elim (is_healthy p.body) [
                | false ↦ (down_result latency p.status unexpected_body, sent')
                | true ↦
                    let asked = get_json (trim_right_slash base_url ++ codes "/version") ∷ sent' in
                    (judge_version (net.elapsed asked) (net.respond asked), asked)
              ]
            ]
          ]
        ]

-- MailSMTPProbe; `greets` says whether a host answers with a 220 banner
-- `connect` is the first line that a host sends, if it can be connected to and sends one
unfoldable pub smtp_greets : (Text → Option Text) → Text → Bool
smtp_greets connect host = elim (connect host) [
  | none ↦ false
  | some banner ↦ has_prefix (trim_space banner) (codes "220")
]

unfoldable pub run_smtp : (Text → Option Text) → ℕ → MailConfig → Result
run_smtp connect latency cfg =
    let greets = smtp_greets connect in
    let greeted = count_by greets cfg.smtp_hosts in
    let refused = count_by (λ host. not (greets host)) cfg.smtp_hosts in
    if is_empty cfg.smtp_hosts
    then bare_result unknown not_configured
    else if greeted == 0
    then down_result latency 0 unreachable
    else if ltb 0 refused
    then record {
      state = degraded;
      latency_ms = latency;
      http_status = 0;
      reason_code = mx_partial;
    }
    else up_result latency 0

count_by-not :
    (p : Text → Bool) (xs : List Text) → count_by p xs + count_by (λ x. not (p x)) xs ≡ length xs
count_by-not p [] = refl
count_by-not p (x ∷ xs) = ground (arith, count_by-not p xs)

-- The mail exchangers' state depends on how many of the configured hosts greet: it is unknown if none
-- is configured, and otherwise up if all of them do, down if none does, degraded in between.
run_smtp_cases :
    (connect : Text → Option Text)
    → (latency : ℕ) → (cfg : MailConfig)
    → let greets = smtp_greets connect in
      let hosts = length cfg.smtp_hosts in
      let greeted = count_by greets cfg.smtp_hosts in
      let state = (run_smtp connect latency cfg).state in
      ((hosts ≡ 0) × (state ≡ unknown))
      ⊎ ((0 < hosts) × (greeted ≡ hosts) × (state ≡ up))
      ⊎ ((0 < hosts) × (greeted ≡ 0) × (state ≡ down))
      ⊎ ((0 < greeted) × (greeted < hosts) × (state ≡ degraded))
unfolding run_smtp
run_smtp_cases connect latency cfg =
    ground
      (arith, count_by-not (smtp_greets connect) cfg.smtp_hosts, is_empty-length cfg.smtp_hosts)

-- a page with status 200 whose body passes a test
abbrev pub is_good : (Text → Bool) → Reply → Bool
is_good test (failed e) = false
is_good test (page p) = p.status == 200 && test p.body

abbrev pub says : (Text → Option Text) → Text → Text → Bool
says read expected body = elim (read body) [ none ↦ false | some t ↦ same_text t expected ]

-- TigerDuck is reported up only after exactly two requests: the first was answered with status 200 and
-- a body whose status is ok, the second with status 200 and the API base path that is expected.
run_tigerduck-up :
    (net : Remote)
    → (status_of api_base_path : Text → Option Text) → (base_url expected probe_path : Text)
    → (sent : List Sent)
    → (run_tigerduck net status_of api_base_path base_url expected probe_path sent).0.state ≡ up
    → let health = get_json (trim_right_slash base_url ++ probe_path) ∷ sent in
      let version = get_json (trim_right_slash base_url ++ codes "/version") ∷ health in
      (is_good (says status_of (codes "ok")) (net.respond health) ≡ true)
      × (is_good (says api_base_path expected) (net.respond version) ≡ true)
      × ((run_tigerduck net status_of api_base_path base_url expected probe_path sent).1 ≡ version)
unfolding run_tigerduck
run_tigerduck-up net status_of api_base_path base_url expected probe_path sent h = grind arith
