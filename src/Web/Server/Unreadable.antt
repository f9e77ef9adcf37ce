-- ===== src/Web/Server/Unreadable.antt =====
-- What the server of internal/web answers while the store cannot be read.
use is_ntust_down.Prelude.{
  ℕ, ◌≡◌, refl, ap, String, Bool, true, false, Option, none, some, ◌||◌, ℤ, ◌==◌, any_by, str_eq,
  arith, ◌⊎◌, inl, inr, Bool-cases,
}
use is_ntust_down.Web.RateLimit.{RateLimiter, allow}
use is_ntust_down.Web.ClientIp.{client_ip}
use is_ntust_down.Web.Shown.{Stored, Options}
use is_ntust_down.Web.Api.{
  history, resolution_of, Resolution, HistoryReply, unknown_service, invalid_resolution,
  invalid_count, unavailable, buckets,
}
use is_ntust_down.Web.Server.{
  security_headers, serve, dispatch, middleware, answer, raw_count, limited, handle_status,
  handle_history, handle_page,
}
use is_ntust_down.Web.Exchange.{
  Route, page, static, healthz, status, services, unmatched, service_history, Request, Response,
  Server, or_day, add_headers,
}

-- whether a route is answered from the store
abbrev pub reads_store : Route → Bool
reads_store page = true
reads_store status = true
reads_store (service_history key) = true
reads_store _ = false

abbrev pub is_success : ℕ → Bool
is_success code = code == 200 || code == 304

abbrev pub has_header : String → Response → Bool
has_header name response = any_by (λ (h : String × String). str_eq h.0 name) response.headers

-- an answer that says that something failed, and that no cache keeps or revalidates
abbrev pub IsFailure : Response → Type 0
IsFailure response =
    (is_success response.code ≡ false)
    × (response.etag ≡ none)
    × (has_header "Cache-Control" response ≡ false)

abbrev has_buckets : HistoryReply → Bool
has_buckets (buckets cells) = true
has_buckets reply = false

history-unreadable :
    (atoi : String → Option ℤ) (opts : Options) (key resolution count : String)
    → has_buckets (history atoi opts none key resolution count) ≡ false
unfolding history
history-unreadable atoi opts key resolution count = ground arith

module _ (s : Server) where
  handle_page-unreadable : (r : Request) → IsFailure (handle_page s r none)
  unfolding handle_page
  handle_page-unreadable r = (refl, refl, refl)

  handle_status-unreadable : (r : Request) → IsFailure (handle_status s r none)
  unfolding handle_status
  handle_status-unreadable r = (refl, refl, refl)

  answer-IsFailure :
      (r : Request) (key : String) (res : Resolution) (reply : HistoryReply)
      → has_buckets reply ≡ false
      → IsFailure (answer s r key res reply)
  answer-IsFailure r key res unknown_service h = (refl, refl, refl)
  answer-IsFailure r key res invalid_resolution h = (refl, refl, refl)
  answer-IsFailure r key res invalid_count h = (refl, refl, refl)
  answer-IsFailure r key res unavailable h = (refl, refl, refl)
  answer-IsFailure r key res (buckets cells) h = ground (arith, h)

  handle_history-unreadable : (r : Request) (key : String) → IsFailure (handle_history s r key none)
  unfolding handle_history
  handle_history-unreadable r key =
      let res = or_day (resolution_of r.resolution) in
      answer-IsFailure r key res _
        (history-unreadable s.atoi s.options key r.resolution (raw_count s r res))

  limited-IsFailure :
      (now : ℕ) (r : Request) (rl : Option RateLimiter) (next : Response)
      → IsFailure next
      → IsFailure (limited s now r rl next).0
  unfolding middleware
  limited-IsFailure now r none next h = h
  limited-IsFailure now r (some rl) next h =
      elim (Bool-cases
        (allow (client_ip s.net s.trusted r.remote_addr r.x_forwarded_for) now rl).0.allowed) [
          | inl e ↦ rw e h
          | inr e ↦ rw e (refl, refl, refl)
        ]

  limited-state :
      (now : ℕ) (r : Request) (rl : Option RateLimiter) (a b : Response)
      → (limited s now r rl a).1 ≡ (limited s now r rl b).1
  unfolding middleware
  limited-state now r none a b = refl
  limited-state now r (some rl) a b = refl

  dispatch-unreadable :
      (route : Route) (now : ℕ) (r : Request) (rl : Option RateLimiter) (db : Option Stored)
      → ((reads_store route ≡ true)
          × IsFailure (dispatch s route now r rl none).0
          × ((dispatch s route now r rl none).1 ≡ (dispatch s route now r rl db).1))
        ⊎ ((reads_store route ≡ false)
            × (dispatch s route now r rl none ≡ dispatch s route now r rl db))
  unfolding dispatch
  dispatch-unreadable page now r rl db = inl (refl, handle_page-unreadable r, refl)
  dispatch-unreadable static now r rl db = inr (refl, refl)
  dispatch-unreadable healthz now r rl db = inr (refl, refl)
  dispatch-unreadable unmatched now r rl db = inr (refl, refl)
  dispatch-unreadable services now r rl db = inr (refl, refl)
  dispatch-unreadable status now r rl db =
      inl (
        refl,
        limited-IsFailure now r rl _ (handle_status-unreadable r),
        limited-state now r rl _ _,
      )
  dispatch-unreadable (service_history key) now r rl db = inl (
    refl,
    limited-IsFailure now r rl _ (handle_history-unreadable r key),
    limited-state now r rl _ _,
  )

  -- While the store cannot be read, a request for the page, the status or a history is answered with
  -- an error that has no entity tag and that no cache is told to keep, and the rate limiter is left as
  -- if the store could be read; every other request is answered as if it could.
  pub serve-unreadable :
      (now : ℕ) (r : Request) (rl : Option RateLimiter) (db : Option Stored)
      → ((reads_store r.route ≡ true)
          × IsFailure (serve s now r rl none).0
          × ((serve s now r rl none).1 ≡ (serve s now r rl db).1))
        ⊎ ((reads_store r.route ≡ false) × (serve s now r rl none ≡ serve s now r rl db))
  unfolding serve
  serve-unreadable now r rl db = elim (dispatch-unreadable r.route now r rl db) [
    | inl (e, failed, same) ↦ inl (e, failed, same)
    | inr (e, same) ↦ inr (
      e,
      ap (λ (d : Response × Option RateLimiter). (add_headers (security_headers s) d.0, d.1)) same,
    )
  ]
