-- ===== src/Store/Since.antt =====
-- `since` in RecordResult (internal/store/store.go): the live row against the raw results.
use is_ntust_down.Prelude.{
  ℕ, ◌≡◌, refl, String, Option, none, some, List, [], ◌∷◌, filter_by, str_eq, eq_iff, text_key,
  arith, if◌then◌else◌, Bool-cases, inl, inr,
}
use is_ntust_down.Probe.{same_state, Result}
use is_ntust_down.Store.Schema.{CheckResult, CurrentRow, Db, empty_db}
use is_ntust_down.Store.Table.{lookup, lookup-upsert}
use is_ntust_down.Store.Live.{since_of, record_result}

-- the results of one check, the newest first
abbrev pub results_of : String → List CheckResult → List CheckResult
results_of key = filter_by (λ r. str_eq r.check_key key)

-- when the newest run of equal states began
abbrev pub run_start : CheckResult → List CheckResult → ℕ
run_start r [] = r.observed_at
run_start r (s ∷ older) =
    let start = run_start s older in if same_state s.state r.state then start else r.observed_at

-- What the raw results of a check say of its live row.
pub data IsLive : List CheckResult → Option CurrentRow → Type 0 where
  never : IsLive [] none
  last :
      (r : CheckResult) (older : List CheckResult) (c : CurrentRow)
      → c.state ≡ r.state
      → c.last_checked_at ≡ r.observed_at
      → c.since ≡ run_start r older
      → IsLive (r ∷ older) (some c)

IsLive-step :
    (r : CheckResult) (older : List CheckResult) (o : Option CurrentRow) (c : CurrentRow)
    → c.state ≡ r.state
    → c.last_checked_at ≡ r.observed_at
    → c.since ≡ since_of o r.state r.observed_at
    → IsLive older o
    → IsLive (r ∷ older) (some c)
IsLive-step r [] none c hs hl hn never = last r [] c hs hl hn
IsLive-step r (s ∷ older) (some b) c hs hl hn (last s' older' b' es el en) =
    last r (s ∷ older) c hs hl (ground arith)
IsLive-step r [] (some b) c hs hl hn l = elim l [ ]
IsLive-step r (s ∷ older) none c hs hl hn l = elim l [ ]

abbrev pub Live : Db → Type 0
Live db = (key : String) → IsLive (results_of key db.check_results) (lookup key db.check_current)

-- Recording a result keeps every check's live row in line with the raw results: its state and time
-- are the last result's, and its since is when the current run of that state began.
pub record_result-Live :
    (key : String) (res : Result) (now : ℕ) (db : Db)
    → Live db
    → Live (record_result key res now db)
unfolding record_result
record_result-Live key res now db h other = elim (Bool-cases (str_eq key other)) [
  | inl own ↦
      rw (own, lookup-upsert, own)
        (IsLive-step _ _ (lookup key db.check_current) _ refl refl refl
          (rw ((eq_iff key other).0 own) (h other)))
  | inr not_own ↦ rw (lookup-upsert, not_own) (h other)
]

pub empty_db-Live : Live empty_db
unfolding lookup
empty_db-Live key = never
