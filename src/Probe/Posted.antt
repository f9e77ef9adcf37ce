-- ===== src/Probe/Posted.antt =====
-- What a submitted form becomes (Values of internal/probe/html.go, and PostForm, Get, GetJSON and do of
-- internal/probe/session.go): the requests as the HTTP client gets them.
pub mod Credentials
use is_ntust_down.Prelude.{
  ℕ, Bool, List, [], ◌∷◌, ◌++◌, Text, codes, is_empty, not, codes_key, if◌then◌else◌,
}
use is_ntust_down.Store.Table.{Table, upsert}
use is_ntust_down.Probe.Form.{Form, Field}
use is_ntust_down.Probe.Session.{Sent, get, get_json, post, Remote}

-- the loop of Values: url.Values.Set replaces what is there
unfoldable pub values_onto : Table Text Text → List Field → Table Text Text
values_onto values [] = values
values_onto values (fl ∷ fields) = values_onto (upsert fl.name (λ _. fl.value) values) fields

abbrev pub values : List Field → Table Text Text
values = values_onto []

pub record HttpRequest : Type 0 where
  pub method : Text
  pub url : Text
  pub headers : Table Text Text
  pub body : Text

abbrev accept_html : Text
accept_html = codes "text/html,application/xhtml+xml,application/xml;q=0.9,*/*;q=0.8"

abbrev accept_json : Text
accept_json = codes "application/json, text/plain, */*"

abbrev header_if : Bool → Text → Text → Table Text Text
header_if there name value = if there then (name, value) ∷ [] else []

module _ (net : Remote) (user_agent : Text) where
  abbrev common_headers : Text → Table Text Text
  common_headers accept =
      (codes "User-Agent", user_agent)
      ∷ (codes "Accept", accept)
      ∷ (codes "Accept-Language", codes "zh-TW,zh;q=0.9,en-US;q=0.8,en;q=0.7")
      ∷ []

  abbrev get_request : Text → Text → HttpRequest
  get_request url accept = record {
    method = codes "GET";
    url = url;
    headers = common_headers accept;
    body = [];
  }

  unfoldable pub http_request : Sent → HttpRequest
  unfolding values_onto
  http_request (get url) = get_request url accept_html
  http_request (get_json url) = get_request url accept_json
  http_request (post url form referer origin) = record {
    method = codes "POST";
    url = url.text;
    headers =
        common_headers accept_html
        ++ ((codes "Content-Type", codes "application/x-www-form-urlencoded")
            ∷ (header_if (not (is_empty referer)) (codes "Referer") referer
                ++ header_if (not (is_empty origin)) (codes "Origin") origin));
    body = net.encode_query (values form.fields);
  }
