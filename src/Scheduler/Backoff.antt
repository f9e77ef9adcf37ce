-- ===== src/Scheduler/Backoff.antt =====
-- How long the breaker of internal/scheduler/scheduler.go stays open (nextBackoff, updateBreaker).
use mathlib.Core.Path.{◌≡⟨◌⟩◌, ◌∎}
use native.Mathlib.Nat.{pow-suc, mul-pos, mul_assoc}
use is_ntust_down.Prelude.{
  ℕ, zero, suc, ◌+◌, ◌*◌, ◌^◌, ◌≤◌, ◌<◌, min, ◌≡◌, refl, sym, ◌∙◌, false, none, some, List, [], ◌∷◌,
  length, pos, ◌<ℤ◌, ap, arith, ◌⊎◌,
}
use is_ntust_down.Probe.{ReasonCode}
use is_ntust_down.Store.Schema.{BreakerRecord}
use is_ntust_down.Scheduler.Guard.{
  GuardConfig, second, seconds, next_backoff, hard_auth_failure, failed_record,
}

-- the backoff after `k` suspensions in a row
abbrev pub backoff_after : GuardConfig → ℕ → ℕ
backoff_after g zero = 0
backoff_after g (suc k) = next_backoff (backoff_after g k) g

next_backoff-min :
    (g : GuardConfig) (i : ℕ)
    → 0 < i
    → 0 < seconds g.backoff_max
    → next_backoff (min i (seconds g.backoff_max)) g ≡ min (i * 2) (seconds g.backoff_max)
unfolding next_backoff
next_backoff-min g i h k = ground arith

pow-pos : (k : ℕ) → 0 < 2 ^ k
pow-pos zero = omega arith
pow-pos (suc k) = simp pow-suc (omega (arith, pow-pos k))

first_backoff :
    (g : GuardConfig)
    → next_backoff 0 g ≡ min (seconds g.backoff_initial * 2 ^ 0) (seconds g.backoff_max)
unfolding next_backoff
first_backoff g = ground arith

-- Where the initial and the largest backoff are a second at least, the backoff after k + 1
-- suspensions is the initial one doubled k times, up to the largest.
pub backoff_after_lem :
    (g : GuardConfig) (k : ℕ)
    → 0 < seconds g.backoff_initial
    → 0 < seconds g.backoff_max
    → backoff_after g (suc k) ≡ min (seconds g.backoff_initial * 2 ^ k) (seconds g.backoff_max)
backoff_after_lem g zero h m = first_backoff g
backoff_after_lem g (suc k) h m =
    let i = seconds g.backoff_initial in
    let most = seconds g.backoff_max in
    next_backoff (backoff_after g (suc k)) g
    ≡⟨ ap (λ b. next_backoff b g) (backoff_after_lem g k h m) ⟩
      next_backoff (min (i * 2 ^ k) most) g
    ≡⟨ next_backoff-min g (i * 2 ^ k) (mul-pos h (pow-pos k)) m ⟩ min (i * 2 ^ k * 2) most
    ≡⟨ ap (λ x. min x most) (mul_assoc i (2 ^ k) 2 ∙ ap (λ x. i * x) (sym (pow-suc 2 k))) ⟩
      min (i * 2 ^ suc k) most ∎

-- After no backoff, or one that is not below the initial one, the next suspension is at most the
-- configured maximum, and not below the smaller of the initial and the largest backoff.
next_backoff_bounds :
    (g : GuardConfig) (current : ℕ)
    → (current ≡ 0) ⊎ (seconds g.backoff_initial ≤ current)
    → (next_backoff current g * second ≤ g.backoff_max)
      × (min (seconds g.backoff_initial) (seconds g.backoff_max) ≤ next_backoff current g)
unfolding next_backoff
next_backoff_bounds g current h = ground arith

-- failures in a row that are no rejected credentials, the last one first
pub soft_failures : GuardConfig → ReasonCode → List ℕ → BreakerRecord → BreakerRecord
soft_failures g reason [] rec = rec
soft_failures g reason (now ∷ before) rec =
    failed_record g now reason (soft_failures g reason before rec)

module _ (g : GuardConfig) (reason : ReasonCode) (soft : hard_auth_failure reason ≡ false)
    (rec : BreakerRecord) (closed : rec.open_until ≡ none) (fresh : rec.consecutive_fails ≡ 0) where
  -- Below the threshold the breaker counts the failures and stays closed.
  soft_failures-closed :
      (nows : List ℕ)
      → pos (length nows) <ℤ g.failure_threshold
      → let after = soft_failures g reason nows rec in
        (after.consecutive_fails ≡ length nows)
        × (after.open_until ≡ none)
        × (after.backoff_seconds ≡ rec.backoff_seconds)
  unfolding soft_failures failed_record
  soft_failures-closed [] h = (fresh, closed, refl)
  soft_failures-closed (now ∷ nows) h = ground (arith, soft_failures-closed nows (ground arith))

  -- Starting from a closed breaker without failures, and with a reason that is no rejected
  -- credential, the failure that reaches the threshold opens the breaker for the next backoff.
  soft_failures-opens :
      (now : ℕ) (nows : List ℕ)
      → g.failure_threshold ≡ pos (suc (length nows))
      → (soft_failures g reason (now ∷ nows) rec).open_until
        ≡ some (now + next_backoff rec.backoff_seconds g * second)
  unfolding soft_failures failed_record
  soft_failures-opens now nows h = ground (arith, soft_failures-closed nows (rw h (ground arith)))
