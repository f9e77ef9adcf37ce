-- ===== src/Scheduler/Repository.antt =====
-- The `Repository` interface of internal/scheduler/scheduler.go. A method acts on the storage `S` and
-- returns `none` for an error; an error may leave its mark on the storage too.
use is_ntust_down.Prelude.{ℕ, String, Option, List}
use is_ntust_down.Probe.{Result}
use is_ntust_down.Store.Schema.{Current, BreakerRecord}
use is_ntust_down.Store.Table.{Table}

abbrev pub Fallible : Type 0 → Type 0 → Type 0
Fallible S A = S → Option A × S

pub record Repository (S : Type 0) : Type 0 where
  pub record_result : String → Result → ℕ → Fallible S Unit
  pub current_states : Fallible S (Table String Current)
  pub load_breaker : String → Fallible S BreakerRecord
  pub save_breaker : BreakerRecord → Fallible S Unit
  pub count_attempts_since : String → ℕ → Fallible S ℕ
  pub rollup : List ℕ → Fallible S Unit
  pub rollup_hourly : ℕ → ℕ → Fallible S Unit
  pub prune : ℕ → ℕ → ℕ → Fallible S Unit
  pub prune_hourly : ℕ → ℕ → Fallible S Unit
