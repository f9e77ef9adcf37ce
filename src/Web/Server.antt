-- ===== src/Web/Server.antt =====
-- internal/web/server.go, the handlers of internal/web/api.go that it routes to, and the middleware of
-- internal/web/ratelimit.go: what each request is answered.
--
-- The mux of Go's library picks the route. JSON encoding, the hash behind an ETag and what Go prints
-- are parameters; a response's body is what it is rendered from.
pub mod Caching
pub mod Quota
pub mod Unreadable
use is_ntust_down.Prelude.{
  ℕ, ◌+◌, ◌-◌, ◌/◌, max, String, str_append, Bool, true, false, Option, none, some, List, [], ◌∷◌,
  ◌++◌, ℤ, Text, same_text, if◌then◌else◌,
}
use is_ntust_down.Web.Exchange.{
  Body, Payload, Request, Response, Route, Server, add_headers, any_origin, empty, encoded, file,
  health, healthz, history_json, json_error, json_type, name_of, no_data, or_day, page, page_of,
  param_of, plain, seconds_up, service_history, services, services_json, static, status,
  status_json, unmatched, write_json_error,
}
use is_ntust_down.Web.RateLimit.{RateLimiter, Verdict, allow}
use is_ntust_down.Web.ClientIp.{Net, client_ip}
use is_ntust_down.Web.I18n.{Lang, catalog_for, message, negotiate}
use is_ntust_down.Web.Labels.{Format}
use is_ntust_down.Web.View.{build}
use is_ntust_down.Web.Shown.{Options, Stored, PageView}
use is_ntust_down.Web.Wire.{
  ApiStatus, ApiHistory, ApiServiceMeta, status_payload, history_payload, services_payload,
}
use is_ntust_down.Web.Api.{
  HistoryReply, unknown_service, invalid_resolution, invalid_count, unavailable, buckets,
  Resolution, day, hour, resolution_of, history, limit_of,
}

module _ (s : Server) where
  abbrev max_age : String × String
  max_age = (
    "Cache-Control",
    str_append "public, max-age=" (s.format.decimal (s.cache_max_age / 1000000000)),
  )

  abbrev pub language_of : Request → Lang
  language_of r = negotiate s.parse_float s.one r.lang r.accept_language

  -- `Build`, which fails if a read does
  abbrev pub view_of : Request → Option Stored → Option PageView
  view_of r none = none
  view_of r (some db) = some (build (language_of r) s.options db)

  abbrev pub written : Text → Text → Response
  written body if_none_match =
      let etag = s.etag_of body in
      let same = same_text if_none_match etag in
      record {
        code = if same then 304 else 200;
        headers =
            json_type ∷ max_age ∷ any_origin ∷ ("Vary", "Accept-Language, Accept-Encoding") ∷ [];
        etag = some etag;
        body = if same then empty else encoded body;
      }

  -- what is sent of an encoded payload
  abbrev pub sent : Text → Option Text → Response
  sent if_none_match none = write_json_error 500 "internal" "Could not encode the response."
  sent if_none_match (some body) = written body if_none_match

  unfoldable pub write : Request → Payload → Response
  write r payload = sent r.if_none_match (s.marshal payload)

  abbrev pub status_of : Request → Option PageView → Response
  status_of r none = no_data
  status_of r (some view) = write r (status_json (status_payload s.format view))

  unfoldable pub handle_status : Request → Option Stored → Response
  unfolding write
  handle_status r db = status_of r (view_of r db)

  unfoldable pub handle_services : Request → Response
  unfolding write
  handle_services r =
      write r (services_json (services_payload (catalog_for (language_of r)) s.options.services))

  abbrev pub start_of : Resolution → ℕ → String
  start_of day = s.date
  start_of hour = s.format.rfc3339

  abbrev pub raw_count : Request → Resolution → String
  raw_count r day = r.days
  raw_count r hour = r.hours

  -- the answer to a reply of `history`, for a resolution
  abbrev pub answer : Request → String → Resolution → HistoryReply → Response
  answer r key res unknown_service =
      write_json_error 404 "unknown_service"
        (str_append (str_append "No service with key " (s.quoted key)) ".")
  answer r key res invalid_resolution =
      write_json_error 400 "invalid_resolution" "resolution must be \"day\" or \"hour\"."
  answer r key res invalid_count = write_json_error 400 (str_append "invalid_" (param_of res)) (
      str_append (str_append (param_of res) " must be an integer between 1 and ")
        (str_append (s.format.decimal (limit_of s.options res)) "."))
  answer r key res unavailable = no_data
  answer r key res (buckets cells) =
      write r (history_json (history_payload key (name_of res) (start_of res) cells))

  unfoldable pub handle_history : Request → String → Option Stored → Response
  unfolding write
  handle_history r key db =
      let res = or_day (resolution_of r.resolution) in
      answer r key res (history s.atoi s.options (view_of r db) key r.resolution (raw_count r res))

  unfoldable pub handle_page : Request → Option Stored → Response
  handle_page r db = elim (view_of r db) [
    | none ↦ record {
      code = 503;
      headers = ("Content-Type", "text/plain; charset=utf-8") ∷ [];
      etag = none;
      body = plain (message (catalog_for (language_of r)) "label.unavailable");
    }
    | some view ↦ record {
      code = 200;
      headers =
          ("Content-Type", "text/html; charset=utf-8") ∷ ("Vary", "Accept-Language") ∷ max_age ∷ [];
      etag = none;
      body = page_of view;
    }
  ]

  abbrev quota_headers : RateLimiter → Verdict → List (String × String)
  quota_headers rl verdict =
      ("RateLimit-Limit", s.format.decimal rl.per_minute)
      ∷ ("RateLimit-Remaining", s.format.decimal verdict.remaining)
      ∷ ("RateLimit-Reset", s.format.decimal (seconds_up verdict.reset))
      ∷ []

  abbrev too_many : Verdict → Response
  too_many verdict =
      add_headers (("Retry-After", s.format.decimal (max (seconds_up verdict.reset) 1)) ∷ [])
        (write_json_error 429 "rate_limited" "Too many requests. See the RateLimit-Reset header.")

  -- `next` is what the handler behind the middleware answers
  unfoldable pub middleware : ℕ → Request → RateLimiter → Response → Response × RateLimiter
  middleware now r rl next =
      let (verdict, rl') =
        allow (client_ip s.net s.trusted r.remote_addr r.x_forwarded_for) now rl in
      (
        add_headers (quota_headers rl verdict) (if verdict.allowed then next else too_many verdict),
        rl',
      )

  abbrev pub limited : ℕ → Request → Option RateLimiter → Response → Response × Option RateLimiter
  limited now r none next = (next, none)
  limited now r (some rl) next =
      let (response, rl') = middleware now r rl next in (response, some rl')

  -- the handler of a route, behind the middleware or not
  unfoldable pub dispatch :
      Route → ℕ → Request → Option RateLimiter → Option Stored → Response × Option RateLimiter
  unfolding handle_status handle_services handle_history handle_page
  dispatch page now r rl db = (handle_page r db, rl)
  dispatch static now r rl db = (s.library r, rl)
  dispatch healthz now r rl db = (health, rl)
  dispatch status now r rl db = limited now r rl (handle_status r db)
  dispatch services now r rl db = limited now r rl (handle_services r)
  dispatch (service_history key) now r rl db = limited now r rl (handle_history r key db)
  dispatch unmatched now r rl db = (s.library r, rl)

  abbrev pub security_headers : List (String × String)
  security_headers =
      ("X-Content-Type-Options", "nosniff")
      ∷ ("Referrer-Policy", "no-referrer")
      ∷ ("Content-Security-Policy", s.csp)
      ∷ []

  -- ServeHTTP, at an instant and over what the store holds, `none` if it cannot be read
  unfoldable pub serve :
      ℕ → Request → Option RateLimiter → Option Stored → Response × Option RateLimiter
  unfolding dispatch
  serve now r rl db =
      let (response, rl') = dispatch r.route now r rl db in
      (add_headers security_headers response, rl')
