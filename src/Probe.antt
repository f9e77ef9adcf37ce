-- ===== src/Probe.antt =====
-- internal/probe/probe.go: the states, the reason codes, one observation, and how the states of
-- several checks collapse into one.
pub mod Derive
pub mod Form
pub mod Session
pub mod SsoForm
pub mod Posted
pub mod Redact
pub mod Structural
pub mod LaunchToken
pub mod Moodle
pub mod CourseSelection
pub mod Public
pub mod Login
use is_ntust_down.Prelude.{
  ℕ, suc, ◌+◌, String, Bool, true, false, not, ◌&&◌, List, [], ◌∷◌, length, is_empty, filter_by,
  count_by, ◌==◌, if◌then◌else◌,
}

pub data State : Type 0 where
  up degraded down unknown retired : State

-- `==` on states; the five constants are distinct texts
abbrev pub same_state : State → State → Bool
same_state up up = true
same_state degraded degraded = true
same_state down down = true
same_state unknown unknown = true
same_state retired retired = true
same_state _ _ = false

-- The type is a string: the constants, and every other text.
pub data ReasonCode : Type 0 where
  reason_none unreachable timeout http_4xx http_5xx unexpected_body sso_form_missing
        sso_login_rejected sso_bridge_missing token_invalid username_mismatch breaker_open
        reason_retired login_form_missing mx_partial gate_closed not_configured sso_redirect_failed
        paused_after_failure :
      ReasonCode
  other : String → ReasonCode

abbrev pub is_none : ReasonCode → Bool
is_none reason_none = true
is_none _ = false

abbrev pub is_paused_after_failure : ReasonCode → Bool
is_paused_after_failure paused_after_failure = true
is_paused_after_failure _ = false

pub record Result : Type 0 where
  pub state : State
  pub latency_ms : ℕ
  pub http_status : ℕ
  pub reason_code : ReasonCode

abbrev pub up_result : ℕ → ℕ → Result
up_result latency status = record {
  state = up;
  latency_ms = latency;
  http_status = status;
  reason_code = reason_none;
}

abbrev pub down_result : ℕ → ℕ → ReasonCode → Result
down_result latency status reason = record {
  state = down;
  latency_ms = latency;
  http_status = status;
  reason_code = reason;
}

-- a result that carries only a state and a reason
abbrev pub bare_result : State → ReasonCode → Result
bare_result s reason = record { state = s; latency_ms = 0; http_status = 0; reason_code = reason }

unfoldable pub derive_service_state : List State → State
derive_service_state states =
    let live = filter_by (λ s. not (same_state s retired)) states in
    let known = filter_by (λ s. not (same_state s unknown)) live in
    let ups = count_by (λ s. same_state s up) known in
    let downs = count_by (λ s. same_state s down) known in
    if is_empty states
    then unknown
    else if is_empty live
    then retired
    else if is_empty known
    then unknown
    else if downs == length known
    then down
    else if ups == length known
    then up
    else degraded

unfoldable pub rollup_state : State → ReasonCode → State
rollup_state s r = if same_state s unknown && is_paused_after_failure r then down else s

-- `knownReasons`: every constant is in the map
unfoldable pub is_known_reason : ReasonCode → Bool
is_known_reason (other s) = false
is_known_reason _ = true
