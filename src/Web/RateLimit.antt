-- ===== src/Web/RateLimit.antt =====
-- RateLimiter, NewRateLimiter, Allow and sweepLocked of internal/web/ratelimit.go.
--
-- Instants are nanoseconds of the monotonic clock. Tokens are exact: the source's float64 tokens are
-- counted in units of a 60_000_000_000th, so that one nanosecond refills `per_minute` units. What
-- float64 rounds is left out.
pub mod Availability
pub mod Eviction
use is_ntust_down.Prelude.{
  ℕ, ◌+◌, ◌-◌, ◌*◌, ◌/◌, ◌<◌, min, Text, Bool, true, false, Option, none, some, List, [], ◌∷◌, ◌&&◌,
  not, ℤ, pos, leb_ℤ, length, filter_by, ltb, leb, codes_key, if◌then◌else◌,
}
use is_ntust_down.Store.Table.{Table, lookup, upsert}

pub record Bucket : Type 0 where
  pub tokens : ℕ
  pub last : ℕ

pub record RateLimiter : Type 0 where
  pub buckets : Table Text Bucket
  pub per_minute : ℕ
  pub burst : ℕ

-- one token
abbrev pub token : ℕ
token = 60000000000

abbrev pub bucket_sweep_threshold : ℕ
bucket_sweep_threshold = 10000

abbrev ten_minutes : ℕ
ten_minutes = 600000000000

unfoldable pub new_rate_limiter : ℕ → ℤ → RateLimiter
new_rate_limiter per_minute burst = record {
  buckets = [];
  per_minute = per_minute;
  burst = elim burst [ pos n ↦ if leb n 0 then per_minute else n | _ ↦ per_minute ];
}

-- whether a bucket stays: it is not full, or was used in the last ten minutes
abbrev pub stays : RateLimiter → ℕ → Text × Bucket → Bool
stays rl now kb = not (leb (rl.burst * token) kb.1.tokens && ltb ten_minutes (now - kb.1.last))

unfoldable pub sweep_locked : ℕ → RateLimiter → Table Text Bucket
sweep_locked now rl = filter_by (stays rl now) rl.buckets

abbrev pub full_bucket : RateLimiter → ℕ → Bucket
full_bucket rl now = record { tokens = rl.burst * token; last = now }

abbrev pub is_missing : Option Bucket → Bool
is_missing none = true
is_missing (some b) = false

-- the table that the request's bucket goes into
unfoldable pub room_for : ℕ → Option Bucket → RateLimiter → Table Text Bucket
room_for now found rl =
    if is_missing found && leb bucket_sweep_threshold (length rl.buckets)
    then sweep_locked now rl
    else rl.buckets

abbrev pub bucket_or_full : RateLimiter → ℕ → Option Bucket → Bucket
bucket_or_full rl now none = full_bucket rl now
bucket_or_full rl now (some b) = b

-- the tokens of a bucket at `now`
abbrev pub refilled : RateLimiter → ℕ → Bucket → ℕ
refilled rl now b = min (rl.burst * token) (b.tokens + (now - b.last) * rl.per_minute)

pub record Verdict : Type 0 where
  pub allowed : Bool
  pub remaining : ℕ
  -- nanoseconds
  pub reset : ℕ

-- what the tokens allow, and the tokens left
abbrev pub spend : ℕ → ℕ → Verdict × ℕ
spend per_minute tokens =
    if ltb tokens token
    then (record { allowed = false; remaining = 0; reset = (token - tokens) / per_minute }, tokens)
    else (
      record { allowed = true; remaining = (tokens - token) / token; reset = token / per_minute },
      tokens - token,
    )

unfoldable pub allow : Text → ℕ → RateLimiter → Verdict × RateLimiter
allow key now rl =
    let found = lookup key rl.buckets in
    let (verdict, left) = spend rl.per_minute (refilled rl now (bucket_or_full rl now found)) in
    (
      verdict,
      record rl {
        buckets = upsert key (λ _. record { tokens = left; last = now }) (room_for now found rl);
      },
    )
