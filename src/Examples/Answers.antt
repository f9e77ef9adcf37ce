-- ===== src/Examples/Answers.antt =====
-- Requests to the server (internal/web): the language, the quota, and conditional requests.
use is_ntust_down.Prelude.{
  ◌+◌, ◌-◌, ◌*◌, ◌≤◌, ◌≡◌, ◌↔◌, refl, true, Option, none, some, [], ◌∷◌, ℤ, pos, Text, codes, split,
  arith, codes_key, ◌⊎◌, false,
}
use is_ntust_down.Config.Registry.{RegistryOptions}
use is_ntust_down.Web.RateLimit.{new_rate_limiter, token}
use is_ntust_down.Web.RateLimit.Availability.{available}
use is_ntust_down.Web.I18n.{zh_tw, en, Tag, tags_of, primary_of, parse_lang, negotiate}
use is_ntust_down.Web.I18n.Matching.{IsPreferred, negotiate-zh}
use is_ntust_down.Web.View.{build}
use is_ntust_down.Web.Wire.{status_payload}
use is_ntust_down.Web.Wire.Published.{
  published_keys, registered_keys, AllServicesKnown, status_payload-build,
}
use is_ntust_down.Web.Server.Unreadable.{reads_store, IsFailure, serve-unreadable}
use is_ntust_down.Web.Server.{serve}
use is_ntust_down.Web.Exchange.{Request, Route, page, status, Server, plain}
use is_ntust_down.Web.Server.Quota.{answered, answered-le, Arrivals}
use is_ntust_down.Web.Server.Caching.{revalidating, IsRevalidated, serve-IsRevalidated}
use is_ntust_down.Examples.Limits.{net, proxies, limiter}
use is_ntust_down.Examples.Pages.{format, options, stored}

-- the weights 0.5 and 1.0, in halves
abbrev halves : Text → Option ℤ
halves s = some (pos 1)

abbrev header : Text
header = codes "fr;q=0.5, zh-TW"

negotiate-zh_example : (negotiate halves 2 (codes "fr") header ≡ zh_tw) ↔ (
    (parse_lang (codes "fr") ≡ some zh_tw)
    ⊎ ((parse_lang (codes "fr") ≡ none)
        × ((t : Tag) × IsPreferred t (tags_of halves 2 0 (split b',' header))
            × (primary_of t ≡ codes "zh"))))
negotiate-zh_example = negotiate-zh halves 2 (codes "fr") header

abbrev with_smtp : RegistryOptions
with_smtp = record { include_mail_smtp = true }

status_payload-build_example :
    let services = (status_payload format (build en options stored)).services in
    (published_keys services ≡ registered_keys options.services) × AllServicesKnown services
status_payload-build_example = status_payload-build en options stored

abbrev server : Server
server = record {
  options = options;
  cache_max_age = 30000000000;
  csp = "default-src 'self'";
  net = net;
  trusted = proxies;
  format = format;
  quoted = λ s. s;
  date = λ t. "";
  parse_float = halves;
  one = 2;
  atoi = λ s. none;
  marshal = λ payload. some (codes "{}");
  etag_of = λ body. codes "e1";
  library =
      λ r. record { code = 404; headers = []; etag = none; body = plain "404 page not found" };
}

abbrev request : Route → Request
request route = record {
  route = route;
  remote_addr = codes "a";
  x_forwarded_for = [];
  lang = [];
  resolution = "";
  days = "";
  hours = "";
  accept_language = header;
  if_none_match = [];
}

abbrev arrivals : Arrivals
arrivals =
    (1, request status, none) ∷ (2, request page, none) ∷ (3, request status, some stored) ∷ []

answered-le_example :
    answered server (codes "a") arrivals (some limiter) * token
    ≤ available (codes "a") 0 limiter + (3 - 0) * 60
unfolding new_rate_limiter
answered-le_example =
    answered-le server (codes "a") 0 arrivals limiter tt (omega arith, (omega arith, tt))

serve-IsRevalidated_example :
    IsRevalidated
      (codes "e1")
      (serve server 5 (request status) none (some stored)).0
      (serve server 5 (revalidating (codes "e1") (request status)) none (some stored)).0
serve-IsRevalidated_example =
    serve-IsRevalidated server (codes "e1") 5 (request status) (some stored) refl

serve-unreadable_example :
    ((reads_store status ≡ true)
      × IsFailure (serve server 5 (request status) (some limiter) none).0
      × ((serve server 5 (request status) (some limiter) none).1
          ≡ (serve server 5 (request status) (some limiter) (some stored)).1))
    ⊎ ((reads_store status ≡ false)
        × (serve server 5 (request status) (some limiter) none
            ≡ serve server 5 (request status) (some limiter) (some stored)))
serve-unreadable_example = serve-unreadable server 5 (request status) (some limiter) (some stored)
