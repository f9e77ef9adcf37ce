-- ===== src/Lib.antt =====
-- is-ntust-down, a status monitor for NTUST services: a verification library.
--
-- The program runs probes on a schedule (internal/probe, internal/scheduler), stores every result
-- (internal/store) and shows the services' states on a page and through an API (internal/web). The
-- configuration (internal/config, cmd/isntustdown) says which probes there are. Two probes log in with
-- a student's credentials; a guard bounds how often they may, since failed logins lock the account.
--
-- Which file models which part:
--   Probe            internal/probe/probe.go: State, Result, DeriveServiceState, RollupState
--   Probe/Form       internal/probe/html.go: ParseForms, FindLoginForm, FindOIDCBridge
--   Probe/Session    internal/probe/session.go: requests and ResolveBridges
--   Probe/Session/Redirects       CheckRedirect of NewSession, and the requests that a call becomes
--   Probe/Redact     the regular expression of the same file and what it hides
--   Probe/LaunchToken                               extractMobileToken and decodeWSToken of moodle.go
--   Probe/SsoForm, Probe/Structural, Probe/Moodle   internal/probe/moodle.go
--   Probe/CourseSelection                           internal/probe/courseselection.go
--   Probe/Public     internal/probe/mail.go, querycourse.go, tigerduck.go
--   Probe/Posted     internal/probe/session.go and html.go: the requests as the HTTP client gets them
--   Store/Schema, Store/Live      internal/store/store.go, breaker.go and migrations
--   Store/Migrate    Migrate of store.go and the statements of migrations/*.sql
--   Store/Rollup, Store/History   internal/store/store.go, hourly.go: buckets, pruning, histories
--   Scheduler/Guard, Repository   internal/scheduler/scheduler.go: RunOnce and what it calls
--   Scheduler/Sweep  the initial sweep, the ticks of a job, and internal/scheduler/maintenance.go
--   Scheduler/Running             the lives of the process: starts, ticks of jobs and of maintenance
--   Scheduler/OnStore             the store as the scheduler's repository, with failing calls
--   Config/Registry               internal/config/registry.go
--   Config/DotEnv                 loadDotEnv of internal/config/config.go
--   Config/Reader, Load           the loader's str, url, intVal, dur, … and Load, of the same file
--   Config/Settings               the Config record, and the checks that Load makes of the values
--   Config/Jobs                   buildJobs of cmd/isntustdown/main.go; the probes that it configures
--                    are a parameter, which is given the credentials
--   Web/RateLimit, Web/ClientIp   internal/web/ratelimit.go: Allow, the sweep, ClientIP
--   Web/I18n         internal/web/i18n: the catalogues, Parse and Match, and negotiate of server.go
--   Web/Shown, Web/Labels, Web/View   internal/web/view.go: the records, labels and tooltips, Build
--   Web/Read         the reads of Build on the store, and the starts of the strips' cells
--   Web/Wire, Web/Api             internal/web/api.go: the wire types, and the history's window
--   Web/Exchange, Web/Server      internal/web/server.go: requests and answers; routes, handlers,
--                    middleware and ServeHTTP
--   Web/Page         what the page's template calls
--   Startup          cmd/isntustdown/main.go: runVerifySSO, and what the probes and the guard are given
--   Startup/Life, Startup/Scheduled   main, run and newLogger, with Open of store.go
-- The files below these hold lemmas; Examples has concrete runs.
--
-- State is passed explicitly. The database is a record of tables, a table an association list by its
-- primary key. A database call that fails returns nothing and changes nothing, as settled by a list of
-- faults. A probe acts on a world that is a parameter; for the probes themselves the state of a run is
-- the list of the requests sent, and the network answers as a function of that list. Interleavings of
-- the scheduler are sequences of steps (Scheduler/Days, Scheduler/Running). Instants and durations
-- are nanoseconds.
--
-- Loops run on the source's own bounds: both login walks and the walk over bridges make six rounds
-- (maxRedirects), so that nothing runs out of fuel that the source would go on with. All other loops
-- are recursion on the list that the source ranges over.
--
-- Not modelled: the HTTP client with its cookies, where redirects lead (how many the network
-- answers a call with is a parameter), the mux and file server, the HTML, JSON, URL, number and
-- base64 decoders, hashing, TCP connections, the calendar, the source of random bytes and the
-- printing of numbers and times, which are parameters or abstract; the rounding of float64 tokens
-- (which can refuse a request a moment after the announced wait), a rate limit that is not positive
-- and NaN as the weight of a language; the case of letters other than ASCII, which EqualFold,
-- ToUpper and ToLower fold too; texts that are not valid UTF-8, and bytes (a text is its code
-- points, so that maskUsername counts characters); the HTML template; what the logger prints;
-- negative retentions; goroutines, tickers and jitter beyond the order of steps, and so cycles of
-- different jobs that overlap: a cycle is one step. The process environment is a table of
-- variables, and the .env file the lines that the scanner yields.
mod Prelude
pub mod Probe
pub mod Store
pub mod Scheduler
pub mod Config
pub mod Web
pub mod Startup
pub mod Examples
