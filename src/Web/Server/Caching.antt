-- ===== src/Web/Server/Caching.antt =====
-- Conditional requests to the API (internal/web/api.go).
use is_ntust_down.Prelude.{
  ℕ, ◌≡◌, refl, true, Option, none, some, Text, same_text_iff, same_text, ◌⊎◌, ◌≢◌, inl, inr,
  Bool-cases, ap, sym, arith, String,
}
use mathlib.Core.Option.{some-injective}
use is_ntust_down.Web.I18n.{catalog_for}
use is_ntust_down.Web.Shown.{Stored, PageView}
use is_ntust_down.Web.Wire.{status_payload, services_payload, history_payload}
use is_ntust_down.Web.Api.{
  HistoryReply, unknown_service, invalid_resolution, invalid_count, unavailable, buckets,
  Resolution, resolution_of, history,
}
use is_ntust_down.Web.Server.{
  serve, dispatch, write, written, sent, status_of, answer, view_of, raw_count, language_of,
  start_of, handle_status, handle_services, handle_history,
}
use is_ntust_down.Web.Exchange.{
  Route, page, static, healthz, status, services, unmatched, service_history, Request, Response,
  empty, Payload, Server, or_day, name_of, status_json, services_json, history_json,
}
use is_ntust_down.Web.Server.Quota.{is_api}

-- the same request, made on the condition that the answer has another tag
abbrev pub revalidating : Text → Request → Request
revalidating tag r = record r { if_none_match = tag }

abbrev IsUnmodified : Text → Response → Type 0
IsUnmodified tag response =
    (response.code ≡ 304) × (response.body ≡ empty) × (response.etag ≡ some tag)

-- a request on a condition, against the answer to the same request
abbrev pub IsRevalidated : Text → Response → Response → Type 0
IsRevalidated tag plain conditional =
    ((plain.etag ≡ some tag) × IsUnmodified tag conditional)
    ⊎ ((plain.etag ≢ some tag) × (conditional.code ≢ 304))

module _ (s : Server) (tag : Text) where
  written-IsRevalidated :
      (body other : Text) → IsRevalidated tag (written s body other) (written s body tag)
  written-IsRevalidated body other =
      let same = same_text_iff tag (s.etag_of body) in
      elim (Bool-cases (same_text tag (s.etag_of body))) [
        | inl e ↦ inl (ap some (sym (same.0 e)), rw e (refl, refl, ap some (sym (same.0 e))))
        | inr e ↦ inr (
          λ h. ground (arith, e, same, some-injective (s.etag_of body) tag h),
          rw e (λ h. absurd (omega (arith, h))),
        )
      ]

  sent-IsRevalidated :
      (encoding : Option Text) (other : Text)
      → IsRevalidated tag (sent s other encoding) (sent s tag encoding)
  sent-IsRevalidated none other = inr (λ h. cc, λ h. omega (arith, h))
  sent-IsRevalidated (some body) other = written-IsRevalidated body other

  write-IsRevalidated :
      (r : Request) (payload : Payload)
      → IsRevalidated tag (write s r payload) (write s (revalidating tag r) payload)
  unfolding write
  write-IsRevalidated r payload = sent-IsRevalidated (s.marshal payload) r.if_none_match

  status_of-IsRevalidated :
      (r : Request) (view : Option PageView)
      → IsRevalidated tag (status_of s r view) (status_of s (revalidating tag r) view)
  status_of-IsRevalidated r none = inr (λ h. cc, λ h. omega (arith, h))
  status_of-IsRevalidated r (some view) =
      write-IsRevalidated r (status_json (status_payload s.format view))

  answer-IsRevalidated :
      (r : Request) (key : String) (res : Resolution) (reply : HistoryReply)
      → IsRevalidated tag (answer s r key res reply) (answer s (revalidating tag r) key res reply)
  answer-IsRevalidated r key res unknown_service = inr (λ h. cc, λ h. omega (arith, h))
  answer-IsRevalidated r key res invalid_resolution = inr (λ h. cc, λ h. omega (arith, h))
  answer-IsRevalidated r key res invalid_count = inr (λ h. cc, λ h. omega (arith, h))
  answer-IsRevalidated r key res unavailable = inr (λ h. cc, λ h. omega (arith, h))
  answer-IsRevalidated r key res (buckets cells) =
      write-IsRevalidated r
        (history_json (history_payload key (name_of res) (start_of s res) cells))

  dispatch-IsRevalidated :
      (route : Route) (now : ℕ) (r : Request) (db : Option Stored)
      → is_api route ≡ true
      → IsRevalidated tag
          (dispatch s route now r none db).0
          (dispatch s route now (revalidating tag r) none db).0
  unfolding dispatch handle_status handle_services handle_history
  dispatch-IsRevalidated status now r db a = status_of-IsRevalidated r (view_of s r db)
  dispatch-IsRevalidated services now r db a =
      write-IsRevalidated r
        (services_json (services_payload (catalog_for (language_of s r)) s.options.services))
  dispatch-IsRevalidated (service_history key) now r db a =
      let res = or_day (resolution_of r.resolution) in
      answer-IsRevalidated r key res
        (history s.atoi s.options (view_of s r db) key r.resolution (raw_count s r res))
  dispatch-IsRevalidated page now r db a = cc
  dispatch-IsRevalidated static now r db a = cc
  dispatch-IsRevalidated healthz now r db a = cc
  dispatch-IsRevalidated unmatched now r db a = cc

  -- Where no limit stands in the way, a request to the API on the condition that the answer has
  -- another tag is answered with 304, the same tag and no body if the answer that the request has at
  -- that instant without that condition carries the tag, and with another code than 304 if it does not.
  pub serve-IsRevalidated :
      (now : ℕ) (r : Request) (db : Option Stored)
      → is_api r.route ≡ true
      → IsRevalidated tag (serve s now r none db).0 (serve s now (revalidating tag r) none db).0
  unfolding serve
  serve-IsRevalidated now r db a = dispatch-IsRevalidated r.route now r db a
