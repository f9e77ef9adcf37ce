-- ===== src/Store/Live.antt =====
-- RecordResult and CurrentStates of internal/store/store.go, and internal/store/breaker.go.
use is_ntust_down.Prelude.{
  ℕ, String, Bool, Option, none, some, ◌∷◌, map, not, ◌&&◌, count_by, ltb, leb, str_eq, text_key,
  if◌then◌else◌,
}
use is_ntust_down.Probe.{State, unknown, same_state, ReasonCode, reason_none, is_none, Result}
use is_ntust_down.Store.Schema.{CheckResult, CurrentRow, BreakerRow, Db, Current, BreakerRecord}
use is_ntust_down.Store.Table.{Table, lookup, upsert}

-- a number that is written only if it is positive
abbrev positive : ℕ → Option ℕ
positive n = if ltb 0 n then some n else none

abbrev written_reason : ReasonCode → Option ReasonCode
written_reason r = if is_none r then none else some r

abbrev pub since_of : Option CurrentRow → State → ℕ → ℕ
since_of none s now = now
since_of (some c) s now = if same_state c.state s then c.since else now

-- the row that the upsert of check_current leaves
abbrev pub refreshed : Result → ℕ → Option CurrentRow → CurrentRow
refreshed r now old = record {
  state = r.state;
  since = since_of old r.state now;
  last_checked_at = now;
  latency_ms = positive r.latency_ms;
  reason_code = written_reason r.reason_code;
}

-- Both statements of the transaction.
unfoldable pub record_result : String → Result → ℕ → Db → Db
record_result key r now db = record db {
  check_results =
      record {
        check_key = key;
        observed_at = now;
        state = r.state;
        latency_ms = positive r.latency_ms;
        http_status = positive r.http_status;
        reason_code = written_reason r.reason_code;
      }
      ∷ db.check_results;
  check_current = upsert key (refreshed r now) db.check_current;
}

abbrev read_reason : Option ReasonCode → ReasonCode
read_reason none = reason_none
read_reason (some r) = r

abbrev pub scan_current : String × CurrentRow → String × Current
scan_current (key, c) = (
  key,
  record {
    check_key = key;
    state = c.state;
    since = c.since;
    last_checked_at = c.last_checked_at;
    latency_ms = c.latency_ms;
    reason_code = read_reason c.reason_code;
  },
)

unfoldable pub current_states : Db → Table String Current
current_states db = map scan_current db.check_current

abbrev scan_breaker : String → Option BreakerRow → BreakerRecord
scan_breaker key none = record {
  check_key = key;
  consecutive_fails = 0;
  open_until = none;
  backoff_seconds = 0;
}
scan_breaker key (some b) = record {
  check_key = key;
  consecutive_fails = b.consecutive_fails;
  open_until = b.open_until;
  backoff_seconds = b.backoff_seconds;
}

unfoldable pub load_breaker : String → Db → BreakerRecord
load_breaker key db = scan_breaker key (lookup key db.breaker_state)

unfoldable pub save_breaker : BreakerRecord → Db → Db
save_breaker rec db = record db {
  breaker_state =
      upsert rec.check_key
        (λ old. record {
          consecutive_fails = rec.consecutive_fails;
          open_until = rec.open_until;
          backoff_seconds = rec.backoff_seconds;
        })
        db.breaker_state;
}

-- the WHERE clause of the attempt count
abbrev pub is_attempt : String → ℕ → CheckResult → Bool
is_attempt key since r =
    str_eq r.check_key key && leb since r.observed_at && not (same_state r.state unknown)

unfoldable pub count_attempts_since : String → ℕ → Db → ℕ
count_attempts_since key since db = count_by (is_attempt key since) db.check_results
