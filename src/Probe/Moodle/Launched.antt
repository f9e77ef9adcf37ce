-- ===== src/Probe/Moodle/Launched.antt =====
-- resolveToken and the login probe of internal/probe/moodle.go on the page that ends a mobile launch.
use is_ntust_down.Prelude.{
  ℕ, suc, ◌≡◌, ap, ◌∙◌, Bool, true, false, Option, some, List, [], ◌∷◌, ◌++◌, Text, is_empty,
  equal_fold, contains, all_by, arith,
}
use is_ntust_down.Probe.Session.{Page, Sent, Remote, page, get}
use is_ntust_down.Probe.{up, up_result}
use is_ntust_down.Probe.LaunchToken.{
  Base64, is_token_char, take_while, marker, decoded, extract_mobile_token,
}
use is_ntust_down.Probe.LaunchToken.Found.{
  without, launched, extract_mobile_token-page, decode_ws_token-launched,
}
use is_ntust_down.Probe.Moodle.{
  SiteInfo, judge_login, random_passport, launch_url, ws_url, run_sso_login, MoodleConfig, Codecs,
  found, resolve_token,
}

-- A page that holds `moodlemobile://token=` and a payload resolves to the token in the payload,
-- before and after a login, and no request is sent. The payload is a non-empty run of the
-- characters of base64 that the rest of the page does not continue, the marker does not stand
-- before it, and it decodes to a signature and a token with or without a private token, parted by
-- `:::`, where the signature and the token have no colon and the token is not empty.
resolve_token-launched :
    (net : Remote) (codec : Codecs) (cfg : MoodleConfig) (rounds : ℕ) (submitted : Bool) (p : Page)
    (sent : List Sent) (before payload rest signature token : Text) (private : Option Text)
    → p.body ≡ before ++ (marker ++ (payload ++ rest))
    → contains before marker ≡ false
    → is_empty payload ≡ false
    → all_by is_token_char payload ≡ true
    → take_while is_token_char rest ≡ []
    → decoded codec.base64 payload ≡ some (launched signature token private)
    → without b':' signature ≡ true
    → without b':' token ≡ true
    → is_empty token ≡ false
    → resolve_token net codec cfg (suc rounds) submitted p sent ≡ (found token, sent)
unfolding resolve_token
resolve_token-launched net codec cfg rounds submitted p sent before payload rest signature token
      private b n e h k d hs ht et =
    ground (
      arith,
      read_body,
      e,
      decode_ws_token-launched codec.base64 payload signature token private d hs ht et,
    )
  where
    read_body : extract_mobile_token p.body ≡ payload
    read_body = ap extract_mobile_token b ∙ extract_mobile_token-page before payload rest n e h k

-- A page that ends a launch with a token: the marker and a payload in base64, where the marker does
-- not stand before and the rest does not continue the payload, which decodes to a signature and the
-- token, with or without a private token, parted by `:::`.
pub record IsLaunchPage (base64 : Base64) (body token : Text) : Type 0 where
  pub before : Text
  pub payload : Text
  pub rest : Text
  pub signature : Text
  pub private : Option Text
  pub parts : body ≡ before ++ (marker ++ (payload ++ rest))
  pub first_marker : contains before marker ≡ false
  pub some_payload : is_empty payload ≡ false
  pub payload_chars : all_by is_token_char payload ≡ true
  pub payload_ends : take_while is_token_char rest ≡ []
  pub decodes : decoded base64 payload ≡ some (launched signature token private)
  pub signature_whole : without b':' signature ≡ true
  pub token_whole : without b':' token ≡ true
  pub some_token : is_empty token ≡ false

module _ (net : Remote) (codec : Codecs) (cfg : MoodleConfig) where
  resolve_token-page :
      (rounds : ℕ) (submitted : Bool) (p : Page) (token : Text) (sent : List Sent)
      → IsLaunchPage codec.base64 p.body token
      → resolve_token net codec cfg (suc rounds) submitted p sent ≡ (found token, sent)
  resolve_token-page rounds submitted p token sent l =
      resolve_token-launched net codec cfg rounds submitted p sent l.before l.payload l.rest
        l.signature token l.private l.parts l.first_marker l.some_payload l.payload_chars
        l.payload_ends l.decodes l.signature_whole l.token_whole l.some_token

  -- what the webservice says of a token that it takes for the configured user
  abbrev pub Confirms : Page → Type 0
  Confirms q =
      (info : SiteInfo) × (codec.site_info q.body ≡ some info)
      × (is_empty info.exception ≡ true)
      × (equal_fold info.username cfg.username ≡ true)

  judge_login-Confirms :
      (latency : ℕ) (q : Page)
      → Confirms q
      → judge_login net codec cfg latency (page q) ≡ up_result latency q.status
  judge_login-Confirms latency q (info, e, x, u) = ground (arith, e, x, u)

  -- With credentials and a passport, where the launch page that Moodle answers with holds a token (the
  -- parts of IsLaunchPage) and the webservice takes the token for the configured user, the Moodle
  -- login probe reports up, after these two requests and no submitted form.
  pub run_sso_login-launched :
      (sent : List Sent) (passport token : Text) (p q : Page)
      → is_empty cfg.username ≡ false
      → is_empty cfg.password ≡ false
      → random_passport codec.random ≡ some passport
      → net.new_session ≡ true
      → net.respond (get (launch_url net codec cfg passport) ∷ sent) ≡ page p
      → IsLaunchPage codec.base64 p.body token
      → net.respond
          (get (ws_url net codec cfg token) ∷ get (launch_url net codec cfg passport) ∷ sent)
        ≡ page q
      → Confirms q
      → ((run_sso_login net codec cfg sent).0.state ≡ up)
        × ((run_sso_login net codec cfg sent).1
            ≡ get (ws_url net codec cfg token) ∷ get (launch_url net codec cfg passport) ∷ sent)
  unfolding run_sso_login
  run_sso_login-launched sent passport token p q u w r n a l b c =
      let asked = get (launch_url net codec cfg passport) ∷ sent in
      ground (
        arith,
        u,
        w,
        r,
        n,
        a,
        b,
        resolve_token-page 5 false p token asked l,
        judge_login-Confirms (net.elapsed (get (ws_url net codec cfg token) ∷ asked)) q c,
      )
