-- ===== src/Startup/Life.antt =====
-- main and run of cmd/isntustdown/main.go, and Open of internal/store/store.go: what a life of the
-- process does, in order. The time zones of the system, the connection pool, the page assets, the
-- listening socket and the operator's signal are outside.
pub mod Prepared
use is_ntust_down.Prelude.{
  ℕ, Bool, true, false, not, Option, none, some, List, [], ◌∷◌, ◌++◌, Text, to_lower, same_text,
  codes, if◌then◌else◌,
}
use is_ntust_down.Store.Migrate.{Connection, migrate}
use is_ntust_down.Store.Migrate.Files.{migrations}
use is_ntust_down.Scheduler.Guard.{Job, GuardConfig}
use is_ntust_down.Config.Settings.{Config, credentials_present}
use is_ntust_down.Config.Load.{Loaded, config, rejected, dot_env_failed}
use is_ntust_down.Config.Jobs.{Probes, build_jobs}
use is_ntust_down.Startup.{guard_config_of}

pub data Failure : Type 0 where
  unknown_zone no_pool no_ping not_migrated bad_assets not_listening not_shut_down : Failure

-- how serving ends: the socket fails, or a signal comes and the shutdown succeeds or not
pub data Ending : Type 0 where
  socket_failed : Ending
  signalled : Bool → Ending

pub record Outside : Type 0 where
  -- whether time.LoadLocation finds a zone, and pgxpool.New accepts a data source
  pub zone_known : Text → Bool
  pub pool_made : Text → Bool
  pub ping_answered : Bool
  -- whether web.NewServer finds its assets in order
  pub assets_parsed : Bool
  pub ending : Ending

pub data Act (W : Type 0) : Type 0 where
  pool_opened pool_closed : Act W
  -- the catalogue has been brought up to date
  migrated : Act W
  -- the log says that there are no credentials
  warned : Act W
  scheduler_started : List (Job W) → GuardConfig → Act W
  maintenance_started : Act W
  listening : Text → Act W

abbrev pub ended : Ending → Option Failure
ended socket_failed = some not_listening
ended (signalled true) = none
ended (signalled false) = some not_shut_down

module _ {W : Type 0} (out : Outside) where
  -- Open
  unfoldable pub open_store : Text → Text → Option Failure × List (Act W)
  open_store dsn tz_name =
      if not (out.zone_known tz_name)
      then (some unknown_zone, [])
      else if not (out.pool_made dsn)
      then (some no_pool, [])
      else if not out.ping_answered
      then (some no_ping, pool_opened ∷ pool_closed ∷ [])
      else (none, pool_opened ∷ [])

  -- what run does once the database is up to date, before its deferred calls
  abbrev pub serve_all : Probes W → Config → Option Failure × List (Act W)
  serve_all probes c =
      let started =
        (if credentials_present c then [] else warned ∷ [])
        ++ scheduler_started (build_jobs probes c) (guard_config_of c) ∷ maintenance_started ∷ [] in
      if out.assets_parsed
      then (ended out.ending, started ++ listening c.http_addr ∷ [])
      else (some bad_assets, started)

  -- run: the error, what the database is like afterwards, and what was done
  unfoldable pub run : Probes W → Config → Connection → Option Failure × Connection × List (Act W)
  unfolding open_store
  run probes c conn =
      let (failure, opening) = open_store c.database_url c.display_timezone in
      let (ok, conn') = migrate migrations conn in
      let (error, acts) = serve_all probes c in
      elim failure [
        | some f ↦ (some f, conn, opening)
        | none ↦
            if ok
            then (error, conn', opening ++ (migrated ∷ (acts ++ pool_closed ∷ [])))
            else (some not_migrated, conn', opening ++ pool_closed ∷ [])
      ]

-- the exit code of main: what runVerifySSO exits with, and what run fails with
abbrev pub main_exit : Loaded → Bool → (Config → ℕ) → (Config → Option Failure) → ℕ
main_exit (rejected problems) verify_sso verified failed = 2
main_exit dot_env_failed verify_sso verified failed = 2
main_exit (config c) true verified failed = verified c
main_exit (config c) false verified failed = elim (failed c) [ none ↦ 0 | some f ↦ 1 ]

pub data Level : Type 0 where
  debug info warn error : Level

-- the level of newLogger
abbrev pub level_of : Config → Level
level_of c =
    let level = to_lower c.log_level in
    if same_text level (codes "debug")
    then debug
    else if same_text level (codes "warn")
    then warn
    else if same_text level (codes "error")
    then error
    else info
