-- ===== src/Web/Exchange.antt =====
-- What a request to the server of internal/web carries, what it is answered with, and what the server
-- is made of.
use is_ntust_down.Prelude.{ℕ, ◌+◌, ◌/◌, String, Option, none, some, List, [], ◌∷◌, ◌++◌, ℤ, Text}
use is_ntust_down.Web.ClientIp.{Net}
use is_ntust_down.Web.Labels.{Format}
use is_ntust_down.Web.Shown.{Options, PageView}
use is_ntust_down.Web.Wire.{ApiStatus, ApiHistory, ApiServiceMeta}
use is_ntust_down.Web.Api.{Resolution, day, hour}

-- the patterns of the mux, and no pattern
pub data Route : Type 0 where
  page static healthz status services unmatched : Route
  service_history : String → Route

pub record Request : Type 0 where
  pub route : Route
  pub remote_addr : Text
  pub x_forwarded_for : Text
  -- the query
  pub lang : Text
  pub resolution : String
  pub days : String
  pub hours : String
  pub accept_language : Text
  pub if_none_match : Text

pub data Payload : Type 0 where
  status_json : ApiStatus → Payload
  services_json : List ApiServiceMeta → Payload
  history_json : ApiHistory → Payload

pub data Body : Type 0 where
  empty : Body
  file : Text → Body
  plain : String → Body
  page_of : PageView → Body
  encoded : Text → Body
  -- a code and a message
  json_error : String → String → Body

pub record Response : Type 0 where
  pub code : ℕ
  pub headers : List (String × String)
  -- the ETag header
  pub etag : Option Text
  pub body : Body

pub record Server : Type 1 where
  pub options : Options
  -- nanoseconds
  pub cache_max_age : ℕ
  pub csp : String
  pub net : Net
  pub trusted : List net.Range
  pub format : Format
  -- `%q`
  pub quoted : String → String
  -- a local date, as 2006-01-02
  pub date : ℕ → String
  pub parse_float : Text → Option ℤ
  pub one : ℕ
  pub atoi : String → Option ℤ
  pub marshal : Payload → Option Text
  -- the ETag of a body
  pub etag_of : Text → Text
  -- what Go's file server answers, and its mux where no pattern matches
  pub library : Request → Response

abbrev pub json_type : String × String
json_type = ("Content-Type", "application/json; charset=utf-8")

abbrev pub any_origin : String × String
any_origin = ("Access-Control-Allow-Origin", "*")

abbrev pub write_json_error : ℕ → String → String → Response
write_json_error code error text = record {
  code = code;
  headers = json_type ∷ any_origin ∷ [];
  etag = none;
  body = json_error error text;
}

-- no answer depends on the resolution of a request that has none
abbrev pub or_day : Option Resolution → Resolution
or_day none = day
or_day (some res) = res

abbrev pub name_of : Resolution → String
name_of day = "day"
name_of hour = "hour"

abbrev pub param_of : Resolution → String
param_of day = "days"
param_of hour = "hours"

abbrev pub health : Response
health = record {
  code = 200;
  headers = json_type ∷ ("Cache-Control", "no-store") ∷ [];
  etag = none;
  body = plain "{\"status\":\"ok\"}";
}

-- whole seconds, rounded up
abbrev pub seconds_up : ℕ → ℕ
seconds_up t = (t + 999999999) / 1000000000

abbrev pub add_headers : List (String × String) → Response → Response
add_headers headers response = record response { headers = headers ++ response.headers }

abbrev pub no_data : Response
no_data = write_json_error 503 "unavailable" "Status data is temporarily unavailable."
