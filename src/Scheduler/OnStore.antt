-- ===== src/Scheduler/OnStore.antt =====
-- The store of internal/store as the scheduler's repository. Whether the next database call fails is
-- settled by a schedule of faults, which stands for the connection; a call that fails has changed
-- nothing, since RecordResult is one transaction and the others are single statements.
use is_ntust_down.Prelude.{Bool, true, false, Option, none, some, List, [], ◌∷◌}
use is_ntust_down.Store.Schema.{Db, Zone}
use is_ntust_down.Store.Live.{
  record_result, current_states, load_breaker, save_breaker, count_attempts_since,
}
use is_ntust_down.Store.Rollup.{rollup, rollup_hourly, prune_results, prune_daily, prune_hourly}
use is_ntust_down.Scheduler.Repository.{Fallible, Repository}

pub record Disk : Type 0 where
  pub db : Db
  -- whether each coming call fails; all calls after the list succeed
  pub faults : List Bool

abbrev answer : {A : Type 0} → List Bool → (Db → A) → (Db → Db) → Db → Option A × Disk
answer [] read write db = (some (read db), record { db = write db; faults = [] })
answer (true ∷ rest) read write db = (none, record { db = db; faults = rest })
answer (false ∷ rest) read write db = (some (read db), record { db = write db; faults = rest })

abbrev pub access : {A : Type 0} → (Db → A) → (Db → Db) → Fallible Disk A
access read write disk = answer disk.faults read write disk.db

abbrev pub query : {A : Type 0} → (Db → A) → Fallible Disk A
query read = access read (λ db. db)

abbrev pub exec : (Db → Db) → Fallible Disk Unit
exec write = access (λ _. tt) write

-- the second statement runs only if the first one did not fail
abbrev and_then : Option (Unit {0}) × Disk → Fallible Disk Unit → Option (Unit {0}) × Disk
and_then (none, disk) next = (none, disk)
and_then (some _, disk) next = next disk

unfoldable pub store_repository : Zone → Repository Disk
store_repository zone = record {
  record_result = λ key res now. exec (record_result key res now);
  current_states = query current_states;
  load_breaker = λ key. query (load_breaker key);
  save_breaker = λ rec. exec (save_breaker rec);
  count_attempts_since = λ key since. query (count_attempts_since key since);
  rollup = λ days. exec (rollup zone days);
  rollup_hourly = λ hours now. exec (rollup_hourly zone hours now);
  prune = λ raw_days daily_days now disk.
      and_then (exec (prune_results zone raw_days now) disk)
        (exec (prune_daily zone daily_days now));
  prune_hourly = λ days now. exec (prune_hourly zone days now);
}
