-- ===== src/Config/Jobs/Intervals.antt =====
-- The intervals of the jobs that buildJobs of cmd/isntustdown/main.go makes of what Load returns.
-- The scheduler starts a ticker with each, and a ticker panics at an interval that is not positive.
use is_ntust_down.Prelude.{◌≡◌, map, arith}
use is_ntust_down.Config.DotEnv.{Environment, DotEnvFile}
use is_ntust_down.Config.Reader.{Parsers}
use is_ntust_down.Config.Settings.{Config}
use is_ntust_down.Config.Load.{config, load}
use is_ntust_down.Config.Load.Accepted.{durations, AllPositive, load_bounds}
use is_ntust_down.Config.Jobs.{Probes, build_jobs}

build_jobs-AllPositive :
    {W : Type 0}
    → (probes : Probes W) → (c : Config) → AllPositive (durations c)
    → AllPositive (map (λ j. j.interval) (build_jobs probes c))
unfolding build_jobs
build_jobs-AllPositive probes c h = ground arith

-- Every job of a configuration that Load returns has a positive interval.
build_jobs-load :
    {W : Type 0}
    → (probes : Probes W) → (p : Parsers) → (file : DotEnvFile) → (env : Environment) → (c : Config)
    → load p file env ≡ config c
    → AllPositive (map (λ j. j.interval) (build_jobs probes c))
build_jobs-load probes p file env c h =
    build_jobs-AllPositive probes c (load_bounds p file env c h).0
