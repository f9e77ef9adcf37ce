-- ===== src/Store/Migrate/Files.antt =====
-- The statements of internal/store/migrations/*.sql.
use is_ntust_down.Prelude.{true, false, List, [], ◌∷◌, String, codes}
use is_ntust_down.Store.Migrate.{
  Kind, bigserial, text, integer, timestamptz, timestamp, date, numeric, Column, table_of, index_on,
  Statement, Catalogue, Directory,
}

-- NOT NULL
abbrev needed : String → Kind → Column
needed name kind = record { name = name; kind = kind; not_null = true; default_zero = false }

abbrev optional : String → Kind → Column
optional name kind = record { name = name; kind = kind; not_null = false; default_zero = false }

-- INTEGER NOT NULL DEFAULT 0
abbrev counter : String → Column
counter name = record { name = name; kind = integer; not_null = true; default_zero = true }

abbrev counts_and_share : List Column
counts_and_share =
    counter "up_count"
    ∷ counter "degraded_count"
    ∷ counter "down_count"
    ∷ counter "unknown_count"
    ∷ counter "retired_count"
    ∷ optional "uptime_pct" numeric
    ∷ []

abbrev check_results : Statement
check_results = record {
  creates = "check_results";
  relation =
      table_of
        (optional "id" bigserial
          ∷ needed "check_key" text
          ∷ needed "observed_at" timestamptz
          ∷ needed "state" text
          ∷ optional "latency_ms" integer
          ∷ optional "http_status" integer
          ∷ optional "reason_code" text
          ∷ [])
        ("id" ∷ []);
}

abbrev idx_check_results_key_time : Statement
idx_check_results_key_time = record {
  creates = "idx_check_results_key_time";
  relation = index_on "check_results" (("check_key", false) ∷ ("observed_at", true) ∷ []);
}

abbrev check_daily : Statement
check_daily = record {
  creates = "check_daily";
  relation =
      table_of (needed "check_key" text ∷ needed "day" date ∷ counts_and_share)
        ("check_key" ∷ "day" ∷ []);
}

abbrev check_current : Statement
check_current = record {
  creates = "check_current";
  relation =
      table_of
        (optional "check_key" text
          ∷ needed "state" text
          ∷ needed "since" timestamptz
          ∷ needed "last_checked_at" timestamptz
          ∷ optional "latency_ms" integer
          ∷ optional "reason_code" text
          ∷ [])
        ("check_key" ∷ []);
}

abbrev breaker_state : Statement
breaker_state = record {
  creates = "breaker_state";
  relation =
      table_of
        (optional "check_key" text
          ∷ counter "consecutive_fails"
          ∷ optional "open_until" timestamptz
          ∷ counter "backoff_seconds"
          ∷ [])
        ("check_key" ∷ []);
}

abbrev check_hourly : Statement
check_hourly = record {
  creates = "check_hourly";
  relation =
      table_of (needed "check_key" text ∷ needed "hour" timestamp ∷ counts_and_share)
        ("check_key" ∷ "hour" ∷ []);
}

abbrev idx_check_hourly_hour : Statement
idx_check_hourly_hour = record {
  creates = "idx_check_hourly_hour";
  relation = index_on "check_hourly" (("hour", true) ∷ []);
}

abbrev first_file : List Statement
first_file =
    check_results ∷ idx_check_results_key_time ∷ check_daily ∷ check_current ∷ breaker_state ∷ []

abbrev second_file : List Statement
second_file = check_hourly ∷ idx_check_hourly_hour ∷ []

-- migrations/*.sql
abbrev pub migrations : Directory
migrations = (codes "0001_init.sql", first_file) ∷ (codes "0002_hourly.sql", second_file) ∷ []

abbrev created : List Statement → Catalogue
created [] = []
created (st ∷ sts) = (st.creates, st.relation) ∷ created sts

-- all that the files describe
abbrev pub schema : Catalogue
schema = created (
    check_results ∷ idx_check_results_key_time ∷ check_daily ∷ check_current ∷ breaker_state
    ∷ check_hourly ∷ idx_check_hourly_hour ∷ [])
