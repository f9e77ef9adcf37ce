-- ===== src/Store/Schema.antt =====
-- The rows of internal/store/migrations/*.sql and the values that internal/store hands out.
-- A table is keyed by its primary key, which its row does not repeat. Instants are nanoseconds since
-- a fixed epoch before every reading of the clock; local days and local hours are numbers.
use is_ntust_down.Prelude.{ℕ, ◌+◌, String, Option, List, []}
use is_ntust_down.Probe.{State, ReasonCode}
use is_ntust_down.Store.Table.{Table}

-- a row of check_results
pub record CheckResult : Type 0 where
  pub check_key : String
  pub observed_at : ℕ
  pub state : State
  pub latency_ms : Option ℕ
  pub http_status : Option ℕ
  pub reason_code : Option ReasonCode

-- a row of check_current
pub record CurrentRow : Type 0 where
  pub state : State
  pub since : ℕ
  pub last_checked_at : ℕ
  pub latency_ms : Option ℕ
  pub reason_code : Option ReasonCode

-- a row of breaker_state
pub record BreakerRow : Type 0 where
  pub consecutive_fails : ℕ
  pub open_until : Option ℕ
  pub backoff_seconds : ℕ

-- how many samples of each state a bucket holds
pub record Counts : Type 0 where
  pub ups : ℕ
  pub degradeds : ℕ
  pub downs : ℕ
  pub unknowns : ℕ
  pub retireds : ℕ

-- `num / den` of the whole: 100 * num / den percent
pub record Share : Type 0 where
  pub num : ℕ
  pub den : ℕ

-- a row of check_daily or check_hourly
pub record BucketRow : Type 0 where
  pub counts : Counts
  pub uptime_pct : Option Share

pub record Db : Type 0 where
  pub check_results : List CheckResult
  pub check_current : Table String CurrentRow
  pub breaker_state : Table String BreakerRow
  pub check_daily : Table (String × ℕ) BucketRow
  pub check_hourly : Table (String × ℕ) BucketRow

-- after the migrations have run on an empty database
abbrev pub empty_db : Db
empty_db = record {
  check_results = [];
  check_current = [];
  breaker_state = [];
  check_daily = [];
  check_hourly = [];
}

-- `Current`
pub record Current : Type 0 where
  pub check_key : String
  pub state : State
  pub since : ℕ
  pub last_checked_at : ℕ
  pub latency_ms : Option ℕ
  pub reason_code : ReasonCode

-- `BreakerRecord`
pub record BreakerRecord : Type 0 where
  pub check_key : String
  pub consecutive_fails : ℕ
  pub open_until : Option ℕ
  pub backoff_seconds : ℕ

-- `DayBucket` and `HourBucket`: `start` is the local day or the local hour
pub record Bucket : Type 0 where
  pub start : ℕ
  pub state : State
  pub uptime_pct : Option Share
  pub counts : Counts

-- `Conclusive` of both buckets
abbrev pub conclusive : Counts → ℕ
conclusive c = c.ups + c.degradeds + c.downs

-- The calendar of the display zone, which the Go library reads from the zone database.
pub record Zone : Type 0 where
  -- the local date of an instant, as a day number
  pub day_of : ℕ → ℕ
  -- the local date and hour of an instant, as an hour number
  pub hour_of : ℕ → ℕ
  -- the local date, hour and minute of an instant, as a minute number
  pub minute_of : ℕ → ℕ
  -- the instant at which the local hour of an instant began
  pub hour_start : ℕ → ℕ
  -- the instant at which a local day begins, by its number
  pub day_start : ℕ → ℕ
  -- `AddDate(0, 0, -n)` of an instant
  pub days_back : ℕ → ℕ → ℕ
