-- ===== src/Probe/Moodle.antt =====
-- internal/probe/moodle.go. Decoding of JSON and of base64 and the source of random bytes are parameters;
-- URLs are texts.
pub mod Launched
use is_ntust_down.Prelude.{
  ℕ, zero, suc, ◌+◌, ◌-◌, ◌/◌, ◌%◌, ltb, Bool, true, false, ◌&&◌, ◌||◌, Option, none, some, List,
  [], ◌∷◌, ◌++◌, Text, codes, contains, equal_fold, is_empty, trim_right_slash, ◌==◌, if◌then◌else◌,
}
use is_ntust_down.Probe.{
  ReasonCode, Result, up_result, down_result, bare_result, unknown, unreachable, unexpected_body,
  sso_form_missing, sso_bridge_missing, sso_redirect_failed, token_invalid, username_mismatch,
  not_configured,
}
use is_ntust_down.Probe.Form.{find_login_form, find_oidc_bridge}
use is_ntust_down.Probe.Session.{
  Page, Reply, page, failed, Sent, get, post, Remote, forms_of, max_redirects, classify_transport,
  classify_status,
}
use is_ntust_down.Probe.LaunchToken.{Base64, extract_mobile_token, decode_ws_token}
use is_ntust_down.Probe.SsoForm.{submit_login}
use is_ntust_down.Probe.Structural.{usable, walk_to_prompt}

pub record MoodleConfig : Type 0 where
  pub base_url : Text
  pub sso_host : Text
  pub username : Text
  pub password : Text

pub record SiteInfo : Type 0 where
  pub username : Text
  pub site_name : Text
  pub exception : Text

pub record Codecs : Type 0 where
  -- `json.Unmarshal` into moodleSiteInfo
  pub site_info : Text → Option SiteInfo
  pub base64 : Base64
  -- what `rand.Read` puts into 16 bytes, if it does not fail
  pub random : Option (List ℕ)

-- hex.EncodeToString
abbrev pub hex_digit : ℕ → ℕ
hex_digit n = if ltb n 10 then b'0' + n else b'a' + (n - 10)

abbrev pub hex : List ℕ → Text
hex [] = []
hex (b ∷ bytes) = hex_digit (b / 16) ∷ hex_digit (b % 16) ∷ hex bytes

abbrev pub random_passport : Option (List ℕ) → Option Text
random_passport none = none
random_passport (some bytes) = some (hex bytes)

-- what resolveToken returns
pub data Resolved : Type 0 where
  found : Text → Resolved
  terminal : Result → Resolved

module _ (net : Remote) (codec : Codecs) (cfg : MoodleConfig) where
  abbrev pub ws_url : Text → Text
  ws_url token =
      trim_right_slash cfg.base_url
      ++ (codes "/webservice/rest/server.php?"
          ++ net.encode_query (
              (codes "wstoken", token)
              ∷ (codes "wsfunction", codes "core_webservice_get_site_info")
              ∷ (codes "moodlewsrestformat", codes "json")
              ∷ []))

  abbrev pub launch_url : Text → Text
  launch_url passport =
      trim_right_slash cfg.base_url
      ++ (codes "/admin/tool/mobile/launch.php?"
          ++ net.encode_query (
              (codes "service", codes "moodle_mobile_app")
              ∷ (codes "passport", passport)
              ∷ (codes "urlscheme", codes "moodlemobile")
              ∷ []))

  -- what a reply of the webservice to an empty token says of the site
  abbrev pub judge_site : ℕ → Reply → Result
  judge_site latency (failed e) = down_result latency 0 (classify_transport e)
  judge_site latency (page p) =
      if p.status == 200
      then (elim (codec.site_info p.body) [
        | none ↦ down_result latency p.status unexpected_body
        | some info ↦
            if is_empty info.exception && is_empty info.site_name
            then down_result latency p.status unexpected_body
            else up_result latency p.status
      ])
      else down_result latency p.status (classify_status p.status)

  -- MoodleSiteProbe
  unfoldable pub run_site : List Sent → Result × List Sent
  run_site sent =
      let sent' = get (ws_url []) ∷ sent in
      if net.new_session
      then (judge_site (net.elapsed sent') (net.respond sent'), sent')
      else (down_result 0 0 unreachable, sent)

  -- MoodleSSOStructuralProbe
  unfoldable pub run_sso_page : List Sent → Result × List Sent
  run_sso_page sent = elim (random_passport codec.random) [
    | none ↦ (down_result 0 0 unreachable, sent)
    | some passport ↦
        let sent' = get (launch_url passport) ∷ sent in
        if net.new_session
        then walk_to_prompt net cfg.sso_host (net.respond sent') sent'
        else (down_result 0 0 unreachable, sent)
  ]

  -- the launch page's payload
  abbrev read_token : ℕ → ℕ → Text → Resolved
  read_token latency status b64 = elim (decode_ws_token codec.base64 b64) [
    | none ↦ terminal (down_result latency status token_invalid)
    | some t ↦ found t
  ]

  -- The loop of resolveToken. The number is of the rounds left, the flag whether credentials have
  -- been submitted.
  unfoldable pub resolve_token : ℕ → Bool → Page → List Sent → Resolved × List Sent
  resolve_token zero submitted p sent =
      (terminal (down_result (net.elapsed sent) p.status sso_bridge_missing), sent)
  resolve_token (suc rounds) submitted p sent =
      let latency = net.elapsed sent in
      let b64 = extract_mobile_token p.body in
      let give_up = λ (r : ReasonCode). terminal (down_result latency p.status r) in
      elim (is_empty b64) [
        | false ↦ (read_token latency p.status b64, sent)
        | true ↦ elim (find_oidc_bridge (forms_of net p)) [
          | some bridge ↦ elim (net.resolve p.url bridge.action) [
            | none ↦ (give_up sso_bridge_missing, sent)
            | some target ↦
                let sent' = post target bridge p.url.text [] ∷ sent in
                elim (net.respond sent') [
                  | failed e ↦ (give_up (classify_transport e), sent')
                  | page next ↦ resolve_token rounds submitted next sent'
                ]
          ]
          | none ↦ elim (contains p.url.host cfg.sso_host) [
            | false ↦ (give_up sso_bridge_missing, sent)
            | true ↦ elim submitted [
              | true ↦ (give_up sso_redirect_failed, sent)
              | false ↦ elim (usable (find_login_form (forms_of net p))) [
                | none ↦ (give_up sso_form_missing, sent)
                | some form ↦
                    let (reply, sent') = submit_login net cfg.username cfg.password p form sent in
                    elim reply [
                      | failed e ↦ (give_up (classify_transport e), sent')
                      | page next ↦ resolve_token rounds true next sent'
                    ]
              ]
            ]
          ]
        ]
      ]

  -- the webservice's answer to the token
  abbrev pub judge_login : ℕ → Reply → Result
  judge_login latency (failed e) = down_result latency 0 (classify_transport e)
  judge_login latency (page p) = elim (codec.site_info p.body) [
    | none ↦ down_result latency p.status unexpected_body
    | some info ↦
        if is_empty info.exception
        then if equal_fold info.username cfg.username
          then up_result latency p.status
          else down_result latency p.status username_mismatch
        else down_result latency p.status token_invalid
  ]

  abbrev pub verify : Resolved × List Sent → Result × List Sent
  verify (terminal r, sent) = (r, sent)
  verify (found t, sent) =
      let sent' = get (ws_url t) ∷ sent in
      (judge_login (net.elapsed sent') (net.respond sent'), sent')

  abbrev pub login_from : Reply → List Sent → Result × List Sent
  login_from (failed e) sent = (down_result (net.elapsed sent) 0 (classify_transport e), sent)
  login_from (page p) sent = verify (resolve_token max_redirects false p sent)

  -- MoodleSSOLoginProbe
  unfoldable pub run_sso_login : List Sent → Result × List Sent
  run_sso_login sent =
      if is_empty cfg.username || is_empty cfg.password
      then (bare_result unknown not_configured, sent)
      else elim (random_passport codec.random) [
        | none ↦ (down_result 0 0 unreachable, sent)
        | some passport ↦
            let sent' = get (launch_url passport) ∷ sent in
            if net.new_session
            then login_from (net.respond sent') sent'
            else (down_result 0 0 unreachable, sent)
      ]
