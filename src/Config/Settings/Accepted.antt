-- ===== src/Config/Settings/Accepted.antt =====
-- What the checks of Load in internal/config/config.go leave through.
use is_ntust_down.Prelude.{◌≡◌, Bool, true, [], Text, pos, ◌≤ℤ◌, ◌<ℤ◌, arith}
use is_ntust_down.Config.Settings.{Config, credentials_present, logins_per_day, value_problems}

module _ (timezone_known : Text → Bool) (c : Config)
    (accepted : value_problems timezone_known c ≡ []) where
  -- The history is between 1 and 400 days and between 1 and 168 hours long, and hourly buckets are
  -- kept for a day at least.
  pub value_problems_bounds :
      (pos 1 ≤ℤ c.history_days)
      × (c.history_days ≤ℤ pos 400)
      × (pos 1 ≤ℤ c.history_hours)
      × (c.history_hours ≤ℤ pos 168)
      × (pos 1 ≤ℤ c.hourly_retention_days)
  unfolding value_problems
  value_problems_bounds = ground arith

  -- With credentials and a positive ceiling on a day's logins, the ceiling is above the number of
  -- times that the shorter login interval goes into a day.
  pub value_problems-ceiling :
      credentials_present c ≡ true
      → pos 0 <ℤ c.max_login_attempts_per_day
      → pos (logins_per_day c) <ℤ c.max_login_attempts_per_day
  unfolding value_problems
  value_problems-ceiling l p = ground arith
