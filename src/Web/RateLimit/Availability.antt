-- ===== src/Web/RateLimit/Availability.antt =====
-- What a client of the limiter of internal/web/ratelimit.go can see: the tokens that it could spend
-- now. Eviction does not show in it, and neither do other clients.
use native.Mathlib.Nat.{mul-le-mul_right, add-mul}
use is_ntust_down.Prelude.{
  ℕ, suc, ◌+◌, ◌-◌, ◌*◌, ◌≤◌, min, ◌≡◌, refl, ap, Text, Option, none, some, List, [], ◌∷◌, ◌&&◌,
  leb, length, codes_key, same_text_iff, same_text, arith, if◌then◌else◌, Bool-cases, inl, inr,
}
use is_ntust_down.Store.Table.{
  filter_by-IsUnique, lookup, lookup-upsert, IsUnique, upsert-IsUnique, kept, lookup-filter_by,
}
use is_ntust_down.Web.RateLimit.{
  Bucket, RateLimiter, token, stays, sweep_locked, room_for, bucket_or_full, refilled, spend, allow,
  is_missing,
}

-- the tokens that a client with this bucket, or with none, could spend at `now`
abbrev pub available_of : RateLimiter → ℕ → Option Bucket → ℕ
available_of rl now found = refilled rl now (bucket_or_full rl now found)

abbrev pub available : Text → ℕ → RateLimiter → ℕ
available key now rl = available_of rl now (lookup key rl.buckets)

-- a bucket that the sweep drops is full, now and later
available-kept :
    (rl : RateLimiter) (swept now : ℕ) (key : Text) (found : Option Bucket)
    → available_of rl now (kept (stays rl swept) key found) ≡ available_of rl now found
available-kept rl swept now key none = refl
available-kept rl swept now key (some b) = ground arith

available-room_for :
    (rl : RateLimiter) (swept now : ℕ) (key : Text) (found : Option Bucket)
    → IsUnique rl.buckets
    → available_of rl now (lookup key (room_for swept found rl)) ≡ available key now rl
unfolding room_for sweep_locked
available-room_for rl swept now key found u =
    elim (Bool-cases (is_missing found && leb 10000 (length rl.buckets))) [
      | inl s ↦ rw s (
          rw (lookup-filter_by (stays rl swept) key rl.buckets u)
            (available-kept rl swept now key (lookup key rl.buckets)))
      | inr k ↦ rw k
    ]

-- the tokens that a request leaves its client
abbrev pub left_over : Text → ℕ → RateLimiter → ℕ
left_over key now rl = (spend rl.per_minute (available key now rl)).1

-- Where no client has two buckets, a request is judged by its client's own tokens alone;
-- afterwards its client has what is left over and the refill since, and every other client has
-- what it would have had.
available-allow :
    (key other : Text) (now later : ℕ) (rl : RateLimiter)
    → IsUnique rl.buckets
    → ((allow key now rl).0 ≡ (spend rl.per_minute (available key now rl)).0)
      × (available other later (allow key now rl).1 ≡ (
          if same_text key other
          then min (rl.burst * token) (left_over key now rl + (later - now) * rl.per_minute)
          else available other later rl))
unfolding allow
available-allow key other now later rl u =
    let e =
      lookup-upsert other key
        (λ (b : Option Bucket).
          let c : Bucket = record { tokens = left_over key now rl; last = now } in c)
        (room_for now (lookup key rl.buckets) rl) in
    (
      refl,
      rw e (elim (Bool-cases (same_text key other)) [
        | inl own ↦ rw own
        | inr others ↦ rw others (available-room_for rl now later other (lookup key rl.buckets) u)
      ]),
    )

-- requests, each of a client at an instant
abbrev pub Requests : Type 0
Requests = List (Text × ℕ)

-- the instants do not go back, from `start` on
abbrev pub InOrder : ℕ → Requests → Type 0
InOrder start [] = Unit
InOrder start ((key, now) ∷ rest) = (start ≤ now) × InOrder now rest

abbrev pub end_of : ℕ → Requests → ℕ
end_of start [] = start
end_of start ((key, now) ∷ rest) = end_of now rest

-- how many requests of `key` the limiter lets through
unfoldable pub served : Text → Requests → RateLimiter → ℕ
served key [] rl = 0
served key ((other, now) ∷ rest) rl =
    let (verdict, rl') = allow other now rl in
    let more = served key rest rl' in
    if same_text other key && verdict.allowed then suc more else more

available_of-later :
    (rl : RateLimiter) (now later : ℕ) (found : Option Bucket)
    → now ≤ later
    → available_of rl later found ≤ available_of rl now found + (later - now) * rl.per_minute
available_of-later rl now later none h = omega arith
available_of-later rl now later (some b) h =
    let p = rl.per_minute in
    omega (
      arith,
      mul-le-mul_right {m = later - b.last} {n = now - b.last + (later - now)} p (omega arith),
      add-mul (now - b.last) (later - now) p,
    )

-- one request takes a token if it is served, and nothing from another client
spends :
    (key other : Text) (now : ℕ) (rl : RateLimiter)
    → IsUnique rl.buckets
    → available key now (allow other now rl).1
        + (if same_text other key && (allow other now rl).0.allowed then token else 0)
      ≤ available key now rl
spends key other now rl u =
    let h = available-allow other key now now rl u in
    ground (arith, h.0, h.1, same_text_iff other key)

room_for-IsUnique :
    (now : ℕ) (found : Option Bucket) (rl : RateLimiter)
    → IsUnique rl.buckets
    → IsUnique (room_for now found rl)
unfolding room_for sweep_locked
room_for-IsUnique now found rl u =
    elim (Bool-cases (is_missing found && leb 10000 (length rl.buckets))) [
      | inl s ↦ rw s (filter_by-IsUnique (stays rl now) rl.buckets u)
      | inr k ↦ rw k u
    ]

allow-IsUnique :
    (key : Text) (now : ℕ) (rl : RateLimiter)
    → IsUnique rl.buckets
    → IsUnique (allow key now rl).1.buckets
unfolding allow
allow-IsUnique key now rl u =
    upsert-IsUnique key _ _ (room_for-IsUnique now (lookup key rl.buckets) rl u)

per_minute-allow :
    (key : Text) (now : ℕ) (rl : RateLimiter) → (allow key now rl).1.per_minute ≡ rl.per_minute
unfolding allow
per_minute-allow key now rl = refl

end_of-le : (start : ℕ) (reqs : Requests) → InOrder start reqs → start ≤ end_of start reqs
end_of-le start [] h = omega arith
end_of-le start ((key, now) ∷ rest) h = omega (arith, end_of-le now rest h.1)

span : (a b c : ℕ) → a ≤ b → b ≤ c → b - a + (c - b) ≡ c - a
span a b c h k = omega arith

-- Where no client has two buckets, for requests whose instants do not go back, and however the
-- requests of all clients are mixed, what one client is served is covered by the tokens that it
-- had at the start and the refill since.
pub served-le :
    (key : Text) (start : ℕ) (reqs : Requests) (rl : RateLimiter)
    → IsUnique rl.buckets
    → InOrder start reqs
    → served key reqs rl * token
      ≤ available key start rl + (end_of start reqs - start) * rl.per_minute
unfolding served
served-le key start [] rl u h = omega arith
served-le key start ((other, now) ∷ rest) rl u h =
    let rl' = (allow other now rl).1 in
    let p = rl.per_minute in
    let ends = end_of now rest in
    ground (
      arith,
      served-le key now rest rl' (allow-IsUnique other now rl u) h.1,
      per_minute-allow other now rl,
      spends key other now rl u,
      available_of-later rl start now (lookup key rl.buckets) h.0,
      add-mul (now - start) (ends - now) p,
      ap (λ (d : ℕ). d * p) (span start now ends h.0 (end_of-le now rest h.1)),
    )
