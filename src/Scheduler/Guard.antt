-- ===== src/Scheduler/Guard.antt =====
-- Job, GuardConfig, RunOnce, guardBlocks, updateBreaker, nextBackoff and record of
-- internal/scheduler/scheduler.go. Durations and instants are nanoseconds.
--
-- The storage `S` is reached through a repository. A probe acts on the outside world `W`, which
-- nothing else in the scheduler touches: a world that has not changed has not been probed.
use is_ntust_down.Prelude.{
  ℕ, ◌+◌, ◌-◌, ◌*◌, ◌/◌, min, String, Bool, true, false, Option, none, some, ◌||◌, ℤ, pos, leb_ℤ,
  ltb_ℤ, ltb, leb, str_eq, text_key, if◌then◌else◌,
}
use is_ntust_down.Probe.{
  State, up, down, unknown, same_state, ReasonCode, reason_none, token_invalid, sso_login_rejected,
  username_mismatch, breaker_open, gate_closed, paused_after_failure, Result, bare_result,
}
use is_ntust_down.Store.Schema.{Current, BreakerRecord}
use is_ntust_down.Store.Table.{lookup}
use is_ntust_down.Scheduler.Repository.{Repository}

pub record Job (W : Type 0) : Type 0 where
  pub key : String
  pub run : W → Result × W
  pub interval : ℕ
  pub guarded : Bool
  pub gate_check_key : String

pub record GuardConfig : Type 0 where
  pub failure_threshold : ℤ
  pub backoff_initial : ℕ
  pub backoff_max : ℕ
  pub max_attempts_per_day : ℤ

-- What the clock says each time that one cycle reads it.
pub record Readings : Type 0 where
  pub guard_at : ℕ
  pub breaker_at : ℕ
  pub record_at : ℕ

abbrev pub second : ℕ
second = 1000000000

abbrev pub day : ℕ
day = 86400000000000

-- `int(d.Seconds())`
abbrev pub seconds : ℕ → ℕ
seconds d = d / second

-- The stored seconds are a 32-bit column, so doubling them stays inside Go's int.
unfoldable pub next_backoff : ℕ → GuardConfig → ℕ
next_backoff current g =
    let initial = seconds g.backoff_initial in
    let most = seconds g.backoff_max in
    if leb current 0 then min initial most else min (current * 2) most

unfoldable pub pause_reason : BreakerRecord → ReasonCode
pause_reason rec = if ltb 0 rec.consecutive_fails then paused_after_failure else breaker_open

-- `rec.OpenUntil != nil && now.Before(*rec.OpenUntil)`
abbrev pub is_open : BreakerRecord → ℕ → Bool
is_open rec now = elim rec.open_until [ none ↦ false | some until ↦ ltb now until ]

abbrev pub hard_auth_failure : ReasonCode → Bool
hard_auth_failure sso_login_rejected = true
hard_auth_failure username_mismatch = true
hard_auth_failure token_invalid = true
hard_auth_failure _ = false

abbrev pub closed_record : BreakerRecord → BreakerRecord
closed_record rec = record rec { consecutive_fails = 0; open_until = none; backoff_seconds = 0 }

-- the `StateDown` case
unfoldable pub failed_record : GuardConfig → ℕ → ReasonCode → BreakerRecord → BreakerRecord
failed_record g now reason rec =
    let fails = rec.consecutive_fails + 1 in
    let backoff = next_backoff rec.backoff_seconds g in
    if hard_auth_failure reason || leb_ℤ g.failure_threshold (pos fails)
    then (record rec {
      consecutive_fails = fails;
      open_until = some (now + backoff * second);
      backoff_seconds = backoff;
    })
    else record rec { consecutive_fails = fails }

-- the `switch`; `none` is the early return
unfoldable pub next_record :
    GuardConfig → ℕ → State → ReasonCode → BreakerRecord → Option BreakerRecord
unfolding failed_record
next_record g now up reason rec = some (closed_record rec)
next_record g now down reason rec = some (failed_record g now reason rec)
next_record g now _ reason rec = none

-- what a guarded check is gated on
abbrev pub gate_is_up : Option Current → Bool
gate_is_up none = false
gate_is_up (some c) = same_state c.state up

module _ {S : Type 0} (repo : Repository S) where
  abbrev save_next : Option BreakerRecord → S → S
  save_next none s = s
  save_next (some rec) s = (repo.save_breaker rec s).1

  unfoldable pub update_breaker : GuardConfig → String → Result → ℕ → S → S
  unfolding next_record
  update_breaker g key res now s =
      let (loaded, s') = repo.load_breaker key s in
      elim loaded [
        | none ↦ s'
        | some rec ↦ save_next (next_record g now res.state res.reason_code rec) s'
      ]

  unfoldable pub record_outcome : String → Result → ℕ → S → S
  record_outcome key res now s = (repo.record_result key res now s).1

  -- the gate
  unfoldable pub gate_blocks : String → S → (ReasonCode × Bool) × S
  gate_blocks gate s =
      let (current, s') = repo.current_states s in
      if str_eq gate "" then ((reason_none, false), s) else elim current [
        | none ↦ ((gate_closed, true), s')
        | some states ↦
            if gate_is_up (lookup gate states)
            then ((reason_none, false), s')
            else ((gate_closed, true), s')
      ]

  -- the daily ceiling, then the gate
  unfoldable pub ceiling_blocks :
      GuardConfig → String → String → BreakerRecord → ℕ → S → (ReasonCode × Bool) × S
  unfolding gate_blocks pause_reason
  ceiling_blocks g key gate rec now s =
      let (counted, s') = repo.count_attempts_since key (now - day) s in
      if ltb_ℤ (pos 0) g.max_attempts_per_day
      then (elim counted [
        | none ↦ ((breaker_open, true), s')
        | some n ↦
            if leb_ℤ g.max_attempts_per_day (pos n)
            then ((pause_reason rec, true), s')
            else gate_blocks gate s'
      ])
      else gate_blocks gate s

  unfoldable pub guard_blocks : {W : Type 0} → GuardConfig → Job W → ℕ → S → (ReasonCode × Bool) × S
  unfolding ceiling_blocks pause_reason
  guard_blocks g job now s =
      let (loaded, s') = repo.load_breaker job.key s in
      elim loaded [
        | none ↦ ((breaker_open, true), s')
        | some rec ↦
            if is_open rec now
            then ((pause_reason rec, true), s')
            else ceiling_blocks g job.key job.gate_check_key rec now s'
      ]

  -- the probe, the breaker and the record
  unfoldable pub probe_and_record :
      {W : Type 0} → GuardConfig → Job W → Readings → S → W → Result × S × W
  probe_and_record g job at s w =
      let (res, w') = job.run w in
      let s' = if job.guarded then update_breaker g job.key res at.breaker_at s else s in
      (res, record_outcome job.key res at.record_at s', w')

  -- what follows the guard's answer
  abbrev pub decline_or_probe :
      {W : Type 0} → GuardConfig → Job W → Readings → (ReasonCode × Bool) × S → W → Result × S × W
  decline_or_probe g job at ((reason, true), s) w =
      let res = bare_result unknown reason in (res, record_outcome job.key res at.record_at s, w)
  decline_or_probe g job at ((reason, false), s) w = probe_and_record g job at s w

  unfoldable pub run_once : {W : Type 0} → GuardConfig → Job W → Readings → S → W → Result × S × W
  run_once g job at s w =
      if job.guarded
      then decline_or_probe g job at (guard_blocks g job at.guard_at s) w
      else probe_and_record g job at s w
