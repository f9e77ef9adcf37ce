-- ===== src/Store/Rollup/Recompute.antt =====
-- Rollup and RollupHourly of internal/store: what the recomputed buckets hold.
use is_ntust_down.Prelude.{
  ℕ, ◌≡◌, refl, ap, ◌∙◌, map, ◌==◌, String, Bool, true, Option, some, List, [], ◌∷◌, ◌&&◌, any_by,
  filter_by, arith, if◌then◌else◌, nat_key, text_key, pair_key, same_pair, same_pair_iff,
}
use is_ntust_down.Store.Schema.{CheckResult, BucketRow, Db, Zone}
use is_ntust_down.Store.Table.{Table, lookup, lookup-upsert}
use is_ntust_down.Store.Rollup.{
  summarise, group_of, in_group, distinct_groups, upsert_groups, recompute, day_bucket, on_days,
  rollup,
}

check_results-rollup :
    (zone : Zone) (days : List ℕ) (db : Db) → (rollup zone days db).check_results ≡ db.check_results
unfolding rollup
check_results-rollup zone [] db = refl
check_results-rollup zone (d ∷ days) db = refl

-- whether some of the rows are in a group
abbrev pub touched : (CheckResult → ℕ) → String × ℕ → List CheckResult → Bool
touched bucket_of g = any_by (in_group bucket_of g)

abbrev among : String × ℕ → List (String × ℕ) → Bool
among g = any_by (λ h. same_pair h g)

among_same :
    (x g : String × ℕ) (gs : List (String × ℕ))
    → any_by (same_pair x) gs ≡ true
    → same_pair x g ≡ true
    → among g gs ≡ true
among_same x g [] h k = cc
among_same x g (y ∷ gs) h k =
    ground (arith, among_same x g gs, same_pair_iff x y, same_pair_iff x g, same_pair_iff y g)

module _ (bucket_of : CheckResult → ℕ) where
  among-distinct_groups :
      (g : String × ℕ) (rows : List CheckResult)
      → among g (distinct_groups bucket_of rows) ≡ touched bucket_of g rows
  unfolding distinct_groups
  among-distinct_groups g [] = refl
  among-distinct_groups g (r ∷ rows) = ground (
    arith,
    among-distinct_groups g rows,
    among_same (group_of bucket_of r) g (distinct_groups bucket_of rows),
  )

  lookup-upsert_groups :
      (g : String × ℕ) (rows : List CheckResult) (gs : List (String × ℕ))
      (t : Table (String × ℕ) BucketRow)
      → lookup g (upsert_groups bucket_of rows gs t) ≡ (
          if among g gs
          then some (summarise (filter_by (in_group bucket_of g) rows))
          else lookup g t)
  unfolding upsert_groups
  lookup-upsert_groups g rows [] t = refl
  lookup-upsert_groups g rows (h ∷ gs) t =
      let new = λ (k : String × ℕ). summarise (filter_by (in_group bucket_of k) rows) in
      ground (
        arith,
        lookup-upsert g h (λ (old : Option BucketRow). new h) (upsert_groups bucket_of rows gs t),
        lookup-upsert_groups g rows gs t,
        same_pair_iff h g,
        ap new,
      )

  -- After a recompute a bucket that has selected rows is their summary, and any other is as before.
  lookup-recompute :
      (selected : CheckResult → Bool) (results : List CheckResult) (g : String × ℕ)
      (t : Table (String × ℕ) BucketRow)
      → let rows = filter_by selected results in
        lookup g (recompute bucket_of selected results t) ≡ (
          if touched bucket_of g rows
          then some (summarise (filter_by (in_group bucket_of g) rows))
          else lookup g t)
  unfolding recompute
  lookup-recompute selected results g t =
      let rows = filter_by selected results in
      lookup-upsert_groups g rows (distinct_groups bucket_of rows) t
      ∙ ap
          (λ (b : Bool).
            if b then some (summarise (filter_by (in_group bucket_of g) rows)) else lookup g t)
          (among-distinct_groups g rows)

module _ (zone : Zone) where
  abbrev pub listed : List ℕ → ℕ → Bool
  listed days day = any_by (λ d. d == day) (map zone.day_of days)

  on_days-in_group :
      (days : List ℕ) (g : String × ℕ) (r : CheckResult)
      → in_group (day_bucket zone) g r ≡ true
      → on_days zone days r ≡ listed days g.1
  on_days-in_group days g r h =
      ap (λ (k : String × ℕ). listed days k.1)
        ((same_pair_iff (group_of (day_bucket zone) r) g).0 h)

  -- every row of a listed day's group is selected
  filter_by-day :
      (days : List ℕ) (g : String × ℕ) (results : List CheckResult)
      → listed days g.1 ≡ true
      → filter_by (in_group (day_bucket zone) g) (filter_by (on_days zone days) results)
        ≡ filter_by (in_group (day_bucket zone) g) results
  filter_by-day days g [] h = refl
  filter_by-day days g (r ∷ results) h =
      ground (arith, filter_by-day days g results h, on_days-in_group days g r)

  touched-filter_by :
      (days : List ℕ) (g : String × ℕ) (results : List CheckResult)
      → touched (day_bucket zone) g (filter_by (on_days zone days) results)
        ≡ listed days g.1 && touched (day_bucket zone) g results
  touched-filter_by days g [] = ground arith
  touched-filter_by days g (r ∷ results) =
      ground (arith, touched-filter_by days g results, on_days-in_group days g r)

  -- A rollup replaces the bucket of a check on a listed day by the summary of all its results of that
  -- day, if it has any, and leaves every other bucket alone.
  pub lookup-rollup :
      (days : List ℕ) (db : Db) (g : String × ℕ)
      → lookup g (rollup zone days db).check_daily ≡ (
          if listed days g.1 && touched (day_bucket zone) g db.check_results
          then some (summarise (filter_by (in_group (day_bucket zone) g) db.check_results))
          else lookup g db.check_daily)
  unfolding rollup
  lookup-rollup [] db g = refl
  lookup-rollup (d ∷ days) db g = ground (
    arith,
    lookup-recompute (day_bucket zone) (on_days zone (d ∷ days)) db.check_results g db.check_daily,
    touched-filter_by (d ∷ days) g db.check_results,
    ap summarise
        {x = filter_by (in_group (day_bucket zone) g)
          (filter_by (on_days zone (d ∷ days)) db.check_results)},
    filter_by-day (d ∷ days) g db.check_results,
  )

  -- Running a rollup a second time leaves every daily bucket as the first one left it.
  pub rollup-rollup :
      (days : List ℕ) (db : Db) (g : String × ℕ)
      → lookup g (rollup zone days (rollup zone days db)).check_daily
        ≡ lookup g (rollup zone days db).check_daily
  rollup-rollup days db g = ground (
    arith,
    lookup-rollup days (rollup zone days db) g,
    lookup-rollup days db g,
    check_results-rollup zone days db,
  )
