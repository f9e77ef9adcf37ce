-- ===== src/Web/RateLimit/Eviction.antt =====
-- sweepLocked of internal/web/ratelimit.go on the buckets that Allow leaves behind.
use is_ntust_down.Prelude.{
  ℕ, ◌*◌, ◌<◌, ◌≤◌, ◌≡◌, refl, ◌&&◌, Text, Option, none, some, [], ◌∷◌, arith, filter_by, length,
  leb, same_text, codes_key, Bool-cases, inl, inr, ℤ,
}
use is_ntust_down.Store.Table.{Table, lookup, upsert}
use is_ntust_down.Web.RateLimit.{
  Bucket, RateLimiter, token, stays, sweep_locked, room_for, spend, allow, is_missing,
  new_rate_limiter,
}
use is_ntust_down.Web.RateLimit.Availability.{Requests, available}

-- the limiter after some requests
pub after : Requests → RateLimiter → RateLimiter
after [] rl = rl
after ((key, now) ∷ rest) rl = after rest (allow key now rl).1

-- no bucket holds `limit` units
abbrev BelowAll : ℕ → Table Text Bucket → Type 0
BelowAll limit [] = Unit
BelowAll limit ((key, b) ∷ t) = (b.tokens < limit) × BelowAll limit t

BelowAll-upsert :
    (limit : ℕ) (key : Text) (f : Option Bucket → Bucket) (t : Table Text Bucket)
    → ((old : Option Bucket) → (f old).tokens < limit)
    → BelowAll limit t
    → BelowAll limit (upsert key f t)
unfolding upsert
BelowAll-upsert limit key f [] fits h = (fits none, tt)
BelowAll-upsert limit key f ((j, b) ∷ t) fits h = elim (Bool-cases (same_text j key)) [
  | inl e ↦ rw e (fits (some b), h.1)
  | inr e ↦ rw e (h.0, BelowAll-upsert limit key f t fits h.1)
]

sweep_of_BelowAll :
    (now : ℕ) (rl : RateLimiter) (t : Table Text Bucket)
    → BelowAll (rl.burst * token) t
    → filter_by (stays rl now) t ≡ t
sweep_of_BelowAll now rl [] h = refl
sweep_of_BelowAll now rl ((key, b) ∷ t) h = ground (arith, sweep_of_BelowAll now rl t h.1)

spend-lt : (p tokens full : ℕ) → token ≤ full → tokens ≤ full → (spend p tokens).1 < full
spend-lt p tokens full h k = ground arith

allow-BelowAll :
    (key : Text) (now : ℕ) (rl : RateLimiter)
    → 0 < rl.burst
    → BelowAll (rl.burst * token) rl.buckets
    → BelowAll (rl.burst * token) (allow key now rl).1.buckets
unfolding allow room_for sweep_locked
allow-BelowAll key now rl hb h =
    let found = lookup key rl.buckets in
    let fits =
      spend-lt rl.per_minute (available key now rl) (rl.burst * token) (omega arith)
        (omega arith) in
    elim (Bool-cases (is_missing found && leb 10000 (length rl.buckets))) [
      | inl s ↦ rw s (
          rw (sweep_of_BelowAll now rl rl.buckets h)
            (BelowAll-upsert _ key _ rl.buckets (λ old. fits) h))
      | inr k ↦ rw k (BelowAll-upsert _ key _ rl.buckets (λ old. fits) h)
    ]

after-BelowAll :
    (reqs : Requests) (rl : RateLimiter)
    → 0 < rl.burst
    → BelowAll (rl.burst * token) rl.buckets
    → BelowAll ((after reqs rl).burst * token) (after reqs rl).buckets
unfolding after allow
after-BelowAll [] rl hb h = h
after-BelowAll ((key, now) ∷ rest) rl hb h =
    after-BelowAll rest (allow key now rl).1 hb (allow-BelowAll key now rl hb h)

-- Whatever requests a new limiter with a positive burst has seen, and however long ago, a sweep
-- removes no bucket: Allow never leaves a full one.
pub sweep_locked-after :
    (per_minute : ℕ) (burst : ℤ) (reqs : Requests) (now : ℕ)
    → 0 < (new_rate_limiter per_minute burst).burst
    → sweep_locked now (after reqs (new_rate_limiter per_minute burst))
      ≡ (after reqs (new_rate_limiter per_minute burst)).buckets
unfolding sweep_locked new_rate_limiter
sweep_locked-after per_minute burst reqs now h =
    let rl = new_rate_limiter per_minute burst in
    sweep_of_BelowAll now (after reqs rl) (after reqs rl).buckets (after-BelowAll reqs rl h tt)
