-- ===== src/Config/Reader/Positive.antt =====
-- What the reader of durations in internal/config/config.go returns.
use is_ntust_down.Prelude.{ℕ, ◌<◌, Text, arith}
use is_ntust_down.Config.DotEnv.{Environment}
use is_ntust_down.Config.Reader.{Parsers, dur}

-- A duration that is read is positive if its default is, also where the reader reports a problem.
pub dur_pos :
    (p : Parsers) (env : Environment) (key : Text) (default : ℕ)
    → 0 < default
    → 0 < (dur p env key default).0
unfolding dur
dur_pos p env key default h = ground arith
