-- ===== src/Store/Rollup/Agreement.antt =====
-- dayState (internal/store/store.go) summarises the samples of a bucket, DeriveServiceState
-- (internal/probe/probe.go) the checks of a service. Over the same states they agree but for one case.
use native.Mathlib.Nat.{div-lt_iff_lt-mul}
use is_ntust_down.Prelude.{
  ℕ, ◌+◌, ◌*◌, ◌/◌, ◌≤◌, ◌<◌, ◌≡◌, refl, ◌&&◌, Bool, some, List, [], ◌∷◌, map, count_by, ltb, ◌==◌,
  arith, if◌then◌else◌,
}
use is_ntust_down.Probe.{
  State, up, degraded, down, unknown, retired, same_state, derive_service_state,
}
use is_ntust_down.Probe.Derive.{tally, summary, derive_service_state-tally}
use is_ntust_down.Store.Schema.{CheckResult, Counts, Share, conclusive}
use is_ntust_down.Store.Rollup.{day_state, tally_rows, uptime_pct}

abbrev pub states_of : List CheckResult → List State
states_of = map (λ r. r.state)

tally-states_of :
    (s : State) (rows : List CheckResult)
    → tally s (states_of rows) ≡ count_by (λ r. same_state r.state s) rows
tally-states_of s [] = refl
tally-states_of s (r ∷ rows) = ground (arith, tally-states_of s rows)

-- no conclusive sample, and both unknown and retired ones
abbrev pub is_mixed : Counts → Bool
is_mixed c = conclusive c == 0 && ltb 0 c.unknowns && ltb 0 c.retireds

day_state-summary :
    (c : Counts)
    → day_state c
      ≡ (if is_mixed c then retired else summary c.ups c.degradeds c.downs c.unknowns c.retireds)
unfolding day_state
day_state-summary c = ground arith

-- The state of a bucket is the one that its samples would give a service, except that a bucket
-- with unknown and retired samples only shows as retired.
pub day_state-derive_service_state :
    (rows : List CheckResult)
    → day_state (tally_rows rows)
      ≡ (if is_mixed (tally_rows rows) then retired else derive_service_state (states_of rows))
day_state-derive_service_state rows = ground (
  arith,
  day_state-summary (tally_rows rows),
  derive_service_state-tally (states_of rows),
  tally-states_of up rows,
  tally-states_of degraded rows,
  tally-states_of down rows,
  tally-states_of unknown rows,
  tally-states_of retired rows,
)

rounded-le : (u t : ℕ) → 0 < t → u ≤ t → (20000 * u + t) / (2 * t) ≤ 10000
rounded-le u t h k = omega (
  arith,
  (div-lt_iff_lt-mul {k = 2 * t} {x = 20000 * u + t} {y = 10001} (omega arith)).1 (omega arith),
)

-- A bucket with a share of uptime has a conclusive sample, and the share is at most the whole.
uptime_pct_bounds :
    (c : Counts) (s : Share) → uptime_pct c ≡ some s → (0 < conclusive c) × (s.num ≤ s.den)
uptime_pct_bounds c s h = ground (arith, rounded-le c.ups (conclusive c))
