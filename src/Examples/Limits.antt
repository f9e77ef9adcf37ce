-- ===== src/Examples/Limits.antt =====
-- Runs of the rate limiter and of the client's address (internal/web/ratelimit.go).
use is_ntust_down.Prelude.{
  ◌≡◌, refl, none, some, List, [], ◌∷◌, Text, codes, same_text, split, trim_space, trim_left,
  is_space, pos, arith,
}
use is_ntust_down.Web.RateLimit.{RateLimiter, new_rate_limiter, sweep_locked}
use is_ntust_down.Web.RateLimit.Availability.{Requests}
use is_ntust_down.Web.RateLimit.Eviction.{after, sweep_locked-after}
use is_ntust_down.Web.ClientIp.{Net, walk, is_trusted, client_ip}
use is_ntust_down.Web.ClientIp.Spoofing.{client_ip-append}

abbrev pub limiter : RateLimiter
limiter = new_rate_limiter 60 (pos 1)

abbrev three : Requests
three = (codes "a", 1) ∷ (codes "b", 2) ∷ (codes "a", 3) ∷ []

sweep_locked-after_example :
    sweep_locked 900000000000 (after three limiter) ≡ (after three limiter).buckets
unfolding new_rate_limiter
sweep_locked-after_example = sweep_locked-after 60 (pos 1) three 900000000000 (omega arith)

-- addresses are trusted if they are the proxy's
abbrev pub net : Net
net = record {
  Ip = Text;
  Range = Text;
  parse_ip = λ s. some s;
  contains = same_text;
  split_host_port = λ s. none;
}

abbrev pub proxies : List Text
proxies = codes "10" ∷ []

client_ip-append_example :
    client_ip net proxies (codes "10") (codes "9,5")
    ≡ client_ip net proxies (codes "10") (codes "5")
unfolding is_trusted client_ip walk same_text split trim_space trim_left is_space
client_ip-append_example =
    client_ip-append net proxies (codes "10") (codes "9") (codes "5") refl (λ e. ground arith)
