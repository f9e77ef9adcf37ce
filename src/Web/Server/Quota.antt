-- ===== src/Web/Server/Quota.antt =====
-- What rate limiting (internal/web/ratelimit.go) means for the answers of the whole server.
use is_ntust_down.Prelude.{
  codes_key, ℕ, suc, ◌+◌, ◌-◌, ◌*◌, ◌≤◌, ◌≡◌, refl, Bool, true, false, not, ◌&&◌, Option, none,
  some, List, [], ◌∷◌, Text, same_text, arith, ◌==◌, Bool-cases, inl, inr, if◌then◌else◌,
}
use native.Mathlib.Nat.{mul-le-mul_right}
use is_ntust_down.Store.Table.{IsUnique}
use is_ntust_down.Web.RateLimit.{RateLimiter, allow, token}
use is_ntust_down.Web.RateLimit.Availability.{
  Requests, InOrder, end_of, served, served-le, available,
}
use is_ntust_down.Web.ClientIp.{client_ip}
use is_ntust_down.Web.Shown.{Stored}
use is_ntust_down.Web.Server.{
  serve, dispatch, limited, middleware, handle_status, handle_services, handle_history,
}
use is_ntust_down.Web.Exchange.{
  Route, page, static, healthz, status, services, unmatched, service_history, Request, Response,
  Server,
}

abbrev pub is_api : Route → Bool
is_api status = true
is_api services = true
is_api (service_history key) = true
is_api _ = false

-- requests, each at an instant and over what the store holds then
abbrev pub Arrivals : Type 0
Arrivals = List (ℕ × Request × Option Stored)

counted-le :
    (own allowed : Bool) (code : ℕ) {more served : ℕ}
    → (allowed ≡ false → code ≡ 429)
    → more ≤ served
    → (if own && not (code == 429) then suc more else more)
      ≤ (if own && allowed then suc served else served)
counted-le false allowed code h k = k
counted-le true true code h k = ground arith
counted-le true false code h k = rw (h refl) k

module _ (s : Server) where
  dispatch-unlimited :
      (route : Route) (now : ℕ) (r : Request) (rl : Option RateLimiter) (db : Option Stored)
      → is_api route ≡ false
      → dispatch s route now r rl db ≡ ((dispatch s route now r none db).0, rl)
  unfolding dispatch
  dispatch-unlimited page now r rl db h = refl
  dispatch-unlimited static now r rl db h = refl
  dispatch-unlimited healthz now r rl db h = refl
  dispatch-unlimited unmatched now r rl db h = refl
  dispatch-unlimited status now r rl db h = cc
  dispatch-unlimited services now r rl db h = cc
  dispatch-unlimited (service_history key) now r rl db h = cc

  -- Whether a request that is not for the API is answered, and how, does not depend on the limiter, and
  -- no token is spent on it.
  serve-unlimited :
      (now : ℕ) (r : Request) (rl : Option RateLimiter) (db : Option Stored)
      → is_api r.route ≡ false
      → serve s now r rl db ≡ ((serve s now r none db).0, rl)
  unfolding serve
  serve-unlimited now r rl db h = rw (dispatch-unlimited r.route now r rl db h) refl

  abbrev pub client_of : Request → Text
  client_of r = client_ip s.net s.trusted r.remote_addr r.x_forwarded_for

  abbrev consult : Bool → Text → ℕ → Requests → Requests
  consult api key now rest = if api then (key, now) ∷ rest else rest

  -- the requests about which the limiter is asked
  abbrev pub api_requests : Arrivals → Requests
  api_requests [] = []
  api_requests ((now, r, db) ∷ rest) =
      consult (is_api r.route) (client_of r) now (api_requests rest)

  abbrev accepted : Text → Request → Response → Bool
  accepted key r response =
      is_api r.route && same_text (client_of r) key && not (response.code == 429)

  -- how many API requests of a client are answered with something else than 429, one after the other
  pub answered : Text → Arrivals → Option RateLimiter → ℕ
  answered key [] rl = 0
  answered key ((now, r, db) ∷ rest) rl =
      let (response, rl') = serve s now r rl db in
      let more = answered key rest rl' in if accepted key r response then suc more else more

  -- what the middleware makes of an answer
  abbrev IsGuarded : ℕ → Request → RateLimiter → Response × Option RateLimiter → Type 0
  IsGuarded now r rl outcome =
      let (verdict, rl') = allow (client_of r) now rl in
      (outcome.1 ≡ some rl') × (verdict.allowed ≡ false → outcome.0.code ≡ 429)

  limited-IsGuarded :
      (now : ℕ) (r : Request) (rl : RateLimiter) (next : Response)
      → IsGuarded now r rl (limited s now r (some rl) next)
  unfolding middleware
  limited-IsGuarded now r rl next = (refl, λ e. rw e refl)

  dispatch-IsGuarded :
      (route : Route) (now : ℕ) (r : Request) (rl : RateLimiter) (db : Option Stored)
      → is_api route ≡ true
      → IsGuarded now r rl (dispatch s route now r (some rl) db)
  unfolding dispatch
  dispatch-IsGuarded status now r rl db h = limited-IsGuarded now r rl (handle_status s r db)
  dispatch-IsGuarded services now r rl db h = limited-IsGuarded now r rl (handle_services s r)
  dispatch-IsGuarded (service_history key) now r rl db h =
      limited-IsGuarded now r rl (handle_history s r key db)
  dispatch-IsGuarded page now r rl db h = cc
  dispatch-IsGuarded static now r rl db h = cc
  dispatch-IsGuarded healthz now r rl db h = cc
  dispatch-IsGuarded unmatched now r rl db h = cc

  answered-served :
      (key : Text) (arrivals : Arrivals) (rl : RateLimiter)
      → answered key arrivals (some rl) ≤ served key (api_requests arrivals) rl
  unfolding answered served serve
  answered-served key [] rl = omega arith
  answered-served key ((now, r, db) ∷ rest) rl = elim (Bool-cases (is_api r.route)) [
    | inl api ↦
        let (after, refused) = dispatch-IsGuarded r.route now r rl db api in
        rw (api, after)
          (counted-le (same_text (client_of r) key) (allow (client_of r) now rl).0.allowed
            (dispatch s r.route now r (some rl) db).0.code refused
            (answered-served key rest (allow (client_of r) now rl).1))
    | inr other ↦
        rw (other, dispatch-unlimited r.route now r (some rl) db other)
          (answered-served key rest rl)
  ]

  -- Where no client has two buckets, for requests to the whole server whose instants do not go back,
  -- mixed however they are: the API requests of one client that are answered with something else than
  -- 429 are covered by the tokens that it had at the start and the refill since.
  pub answered-le :
      (key : Text) (start : ℕ) (arrivals : Arrivals) (rl : RateLimiter)
      → IsUnique rl.buckets
      → InOrder start (api_requests arrivals)
      → answered key arrivals (some rl) * token
        ≤ available key start rl + (end_of start (api_requests arrivals) - start) * rl.per_minute
  answered-le key start arrivals rl u h = omega (
    arith,
    served-le key start (api_requests arrivals) rl u h,
    mul-le-mul_right {m = answered key arrivals (some rl)}
        {n = served key (api_requests arrivals) rl} token (answered-served key arrivals rl),
  )
