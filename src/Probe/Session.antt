-- ===== src/Probe/Session.antt =====
-- internal/probe/session.go: one probe run's HTTP context, and the walk over bridge forms.
--
-- A run's state is the list of the requests that it has sent, the last one first. The network answers
-- as a function of that list, so it may answer every request of a run differently. The HTTP client,
-- the URL parser, the HTML parser and the clock are the parameter `Remote`.
pub mod Credentials
pub mod Redirects
use is_ntust_down.Prelude.{
  ℕ, zero, suc, Bool, true, false, Option, none, some, List, [], ◌∷◌, Text, contains, leb,
  if◌then◌else◌,
}
use is_ntust_down.Probe.{ReasonCode, timeout, unreachable, http_5xx, http_4xx, unexpected_body}
use is_ntust_down.Probe.Form.{Node, Form, parse_forms, find_login_form, find_oidc_bridge}

pub record Url : Type 0 where
  pub text : Text
  pub host : Text

pub record Page : Type 0 where
  pub body : Text
  pub url : Url
  pub status : ℕ

-- a transport error: a deadline or a timeout, or any other
pub data Failure : Type 0 where
  timed_out other_failure : Failure

pub data Reply : Type 0 where
  page : Page → Reply
  failed : Failure → Reply

-- Get, GetJSON and PostForm
pub data Sent : Type 0 where
  get : Text → Sent
  get_json : Text → Sent
  post : Url → Form → Text → Text → Sent

pub record Remote : Type 0 where
  -- what the last request of the list is answered with
  pub respond : List Sent → Reply
  -- `URL.Parse`
  pub resolve : Url → Text → Option Url
  -- `html.Parse`
  pub parse_html : Text → Option Node
  -- whether `cookiejar.New` succeeds
  pub new_session : Bool
  -- `url.Values.Encode`
  pub encode_query : List (Text × Text) → Text
  -- milliseconds since the run started
  pub elapsed : List Sent → ℕ

abbrev pub max_redirects : ℕ
max_redirects = 6

unfoldable pub classify_transport : Failure → ReasonCode
classify_transport timed_out = timeout
classify_transport other_failure = unreachable

unfoldable pub classify_status : ℕ → ReasonCode
classify_status code =
    if leb 500 code then http_5xx else if leb 400 code then http_4xx else unexpected_body

abbrev is_some {ℓ} : {A : Type ℓ} → Option A → Bool
is_some none = false
is_some (some a) = true

module _ (net : Remote) where
  abbrev pub forms_of : Page → List Form
  forms_of p = parse_forms net.parse_html p.body

  unfoldable pub is_sso_login_page : Page → Text → Bool
  is_sso_login_page p sso_host =
      if contains p.url.host sso_host then is_some (find_login_form (forms_of p)) else false

  -- The page where the walk settled, the error that stopped it, and what has been sent.
  unfoldable pub resolve_bridges : Text → ℕ → Page → List Sent → Page × Option Failure × List Sent
  resolve_bridges sso_host zero current sent = (current, none, sent)
  resolve_bridges sso_host (suc steps) current sent =
      if is_sso_login_page current sso_host
      then (current, none, sent)
      else elim (find_oidc_bridge (forms_of current)) [
        | none ↦ (current, none, sent)
        | some bridge ↦ elim (net.resolve current.url bridge.action) [
          | none ↦ (current, some other_failure, sent)
          | some target ↦
              let sent' = post target bridge current.url.text [] ∷ sent in
              elim (net.respond sent') [
                | failed e ↦ (current, some e, sent')
                | page next ↦ resolve_bridges sso_host steps next sent'
              ]
        ]
      ]
