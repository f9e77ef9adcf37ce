-- ===== src/Startup/Life/Prepared.antt =====
-- What is done before run of cmd/isntustdown/main.go starts the loops, and after.
use is_ntust_down.Prelude.{◌≡◌, sym, ap, ◌∙◌, Bool, true, false, List, [], any_by, count_by, arith}
use is_ntust_down.Store.Migrate.{Connection, migrate}
use is_ntust_down.Store.Migrate.Again.{migrate-success}
use is_ntust_down.Store.Migrate.Files.{migrations, schema}
use is_ntust_down.Store.Migrate.Boots.{after_boots, boots-schema}
use is_ntust_down.Config.Settings.{Config}
use is_ntust_down.Config.Jobs.{Probes}
use is_ntust_down.Startup.Life.{
  Outside, Act, pool_opened, pool_closed, scheduler_started, maintenance_started, listening,
  open_store, run,
}

abbrev pub is_start : {W : Type 0} → Act W → Bool
is_start (scheduler_started jobs guard) = true
is_start maintenance_started = true
is_start (listening addr) = true
is_start act = false

abbrev pub is_open : {W : Type 0} → Act W → Bool
is_open pool_opened = true
is_open act = false

abbrev pub is_closed : {W : Type 0} → Act W → Bool
is_closed pool_closed = true
is_closed act = false

-- the connection to a database that was empty before some boots
abbrev pub connected : List (List Bool) → List Bool → Connection
connected boots faults = record { catalogue = after_boots migrations boots []; faults = faults }

module _ {W : Type 0} (out : Outside) (probes : Probes W) (c : Config) where
  run-migrated :
      (conn : Connection)
      → any_by is_start (run out probes c conn).2 ≡ true
      → ((migrate migrations conn).0 ≡ true)
        × ((run out probes c conn).1 ≡ (migrate migrations conn).1)
  unfolding run open_store
  run-migrated conn h = ground arith

  -- A life that starts anything has opened the pool and closes it.
  run-closed :
      (conn : Connection)
      → any_by is_start (run out probes c conn).2 ≡ true
      → (count_by is_open (run out probes c conn).2 ≡ 1)
        × (count_by is_closed (run out probes c conn).2 ≡ 1)
  unfolding run open_store
  run-closed conn h = ground arith

  -- Whatever boots came before on an empty database, each stopped at any call of its migration: when
  -- run starts the scheduler, maintenance or the server, the database has the five tables and the
  -- two indexes that the files describe and nothing else, and the connection pool is opened once and
  -- closed once.
  pub run-prepared :
      (boots : List (List Bool)) (faults : List Bool)
      → any_by is_start (run out probes c (connected boots faults)).2 ≡ true
      → ((run out probes c (connected boots faults)).1.catalogue ≡ schema)
        × (count_by is_open (run out probes c (connected boots faults)).2 ≡ 1)
        × (count_by is_closed (run out probes c (connected boots faults)).2 ≡ 1)
  run-prepared boots faults h =
      let (good, same) = run-migrated (connected boots faults) h in
      (
        ap (λ (x : Connection). x.catalogue) same
            ∙ ap (λ (r : Bool × Connection). r.1.catalogue)
                (sym (migrate-success migrations (after_boots migrations boots []) faults good)
                  ∙ boots-schema boots),
        (run-closed (connected boots faults) h).0,
        (run-closed (connected boots faults) h).1,
      )
