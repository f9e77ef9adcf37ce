-- ===== src/Store/Migrate/Again.antt =====
-- Migrate of internal/store/store.go run again, after a run that stopped anywhere.
use is_ntust_down.Prelude.{
  ◌≡◌, refl, sym, ◌∙◌, Bool, true, false, none, some, List, [], ◌∷◌, Text, arith, Bool-cases,
  Option-cases, inl, inr, text_key, codes_key, ◌&&◌, ◌⊎◌,
}
use is_ntust_down.Store.Table.{lookup}
use is_ntust_down.Store.Migrate.{
  Statement, Catalogue, apply_all, exec_file, Directory, migrate_names, migrate,
}
use is_ntust_down.Store.Migrate.Settled.{
  Extends, AllSettled-Extends, apply_all-again, apply_all-Settled,
}

-- a call that succeeds leaves its statements settled, and one that fails has changed nothing
exec_file_cases :
    (sts : List Statement) (a : Catalogue) (faults : List Bool)
    → (((exec_file sts a faults).0 ≡ false) × ((exec_file sts a faults).1.catalogue ≡ a))
      ⊎ (((exec_file sts a faults).0 ≡ true)
          × (apply_all sts a ≡ some (exec_file sts a faults).1.catalogue))
exec_file_cases sts a [] = ground (arith, Option-cases (apply_all sts a))
exec_file_cases sts a (true ∷ rest) = inl (refl, refl)
exec_file_cases sts a (false ∷ rest) = ground (arith, Option-cases (apply_all sts a))

module _ (dir : Directory) where
  -- what a run of the loop leaves
  abbrev left : List Text → Catalogue → List Bool → Catalogue
  left names cat faults = (migrate_names dir names cat faults).1.catalogue

  migrate_names-file :
      (name : Text) (names : List Text) (sts : List Statement) (a b : Catalogue)
      → lookup name dir ≡ some sts
      → apply_all sts a ≡ some b
      → migrate_names dir (name ∷ names) a [] ≡ migrate_names dir names b []
  unfolding migrate_names
  migrate_names-file name names sts a b e h = ground (arith, e, h)

  left-missing :
      (name : Text) (names : List Text) (a : Catalogue) (faults : List Bool)
      → lookup name dir ≡ none
      → left (name ∷ names) a faults ≡ a
  unfolding migrate_names
  left-missing name names a faults e = ground (arith, e)

  left-failed :
      (name : Text) (names : List Text) (sts : List Statement) (a : Catalogue) (faults : List Bool)
      → lookup name dir ≡ some sts
      → (exec_file sts a faults).0 ≡ false
      → (exec_file sts a faults).1.catalogue ≡ a
      → left (name ∷ names) a faults ≡ a
  unfolding migrate_names
  left-failed name names sts a faults e h k = ground (arith, e, h, k)

  left-done :
      (name : Text) (names : List Text) (sts : List Statement) (a : Catalogue) (faults : List Bool)
      → lookup name dir ≡ some sts
      → (exec_file sts a faults).0 ≡ true
      → left (name ∷ names) a faults
        ≡ left names (exec_file sts a faults).1.catalogue (exec_file sts a faults).1.faults
  unfolding migrate_names
  left-done name names sts a faults e h = ground (arith, e, h)

  -- a run that ends with a catalogue, and one without faults that starts from it
  abbrev Retried : List Text → Catalogue → Catalogue → Type 0
  Retried names a b = Extends a b × (migrate_names dir names b [] ≡ migrate_names dir names a [])

  Retried-file :
      (name : Text) (names : List Text) (sts : List Statement) (a b c : Catalogue)
      → lookup name dir ≡ some sts
      → apply_all sts a ≡ some b
      → Retried names b c
      → Retried (name ∷ names) a c
  Retried-file name names sts a b c e h (y, retried) =
      let (x, settled) = apply_all-Settled sts a b h in
      (
        λ n r k. y n r (x n r k),
        migrate_names-file name names sts c c e
              (apply_all-again sts c (AllSettled-Extends sts b c y settled))
            ∙ retried
            ∙ sym (migrate_names-file name names sts a b e h),
      )

  Retried-same : (names : List Text) (a b : Catalogue) → b ≡ a → Retried names a b
  Retried-same names a b e = rw e (λ n r k. k, refl)

  migrate_names-retry :
      (names : List Text) (a : Catalogue) (faults : List Bool)
      → Retried names a (left names a faults)
  unfolding migrate_names
  migrate_names-retry [] a faults = Retried-same [] a (left [] a faults) refl
  migrate_names-retry (name ∷ names) a faults = elim (Option-cases (lookup name dir)) [
    | inl e ↦ Retried-same (name ∷ names) a _ (left-missing name names a faults e)
    | inr (sts, e) ↦ elim (exec_file_cases sts a faults) [
      | inl (h, k) ↦ Retried-same (name ∷ names) a _ (left-failed name names sts a faults e h k)
      | inr (h, k) ↦
          let conn = (exec_file sts a faults).1 in
          rw (left-done name names sts a faults e h) (
            Retried-file name names sts a conn.catalogue _ e k
              (migrate_names-retry names conn.catalogue conn.faults))
    ]
  ]

  verdict-missing :
      (name : Text) (names : List Text) (a : Catalogue) (faults : List Bool)
      → lookup name dir ≡ none
      → (migrate_names dir (name ∷ names) a faults).0 ≡ false
  unfolding migrate_names
  verdict-missing name names a faults e = ground (arith, e)

  verdict-file :
      (name : Text) (names : List Text) (sts : List Statement) (a : Catalogue) (faults : List Bool)
      → lookup name dir ≡ some sts
      → (migrate_names dir (name ∷ names) a faults).0 ≡ (
          (exec_file sts a faults).0
          && (migrate_names dir names
              (exec_file sts a faults).1.catalogue
              (exec_file sts a faults).1.faults).0)
  unfolding migrate_names
  verdict-file name names sts a faults e = ground (arith, e, Bool-cases (exec_file sts a faults).0)

  -- After a run that succeeds, a run without faults changes nothing.
  migrate_names-done :
      (names : List Text) (a : Catalogue) (faults : List Bool)
      → (migrate_names dir names a faults).0 ≡ true
      → migrate_names dir names (left names a faults) []
        ≡ (true, record { catalogue = left names a faults; faults = [] })
  unfolding migrate_names
  migrate_names-done [] a faults h = refl
  migrate_names-done (name ∷ names) a faults h = elim (Option-cases (lookup name dir)) [
    | inl e ↦ absurd (ground (arith, h, verdict-missing name names a faults e))
    | inr (sts, e) ↦ elim (exec_file_cases sts a faults) [
      | inl (bad, k) ↦ absurd (ground (arith, h, bad, verdict-file name names sts a faults e))
      | inr (good, k) ↦
          let conn = (exec_file sts a faults).1 in
          let after = left names conn.catalogue conn.faults in
          let settled =
            AllSettled-Extends sts conn.catalogue after
              (migrate_names-retry names conn.catalogue conn.faults).0
              (apply_all-Settled sts a conn.catalogue k).1 in
          rw (left-done name names sts a faults e good) (
            migrate_names-file name names sts after after e (apply_all-again sts after settled)
            ∙ migrate_names-done names conn.catalogue conn.faults
                (ground (arith, h, good, verdict-file name names sts a faults e)))
    ]
  ]

  -- A run of Migrate that stops at a failed call or runs to its end keeps every table and index
  -- that was there as it was, and a run without faults after it ends as it would have ended
  -- without the first one, with the same tables and indexes and the same success or failure.
  pub migrate-retry :
      (cat : Catalogue) (faults : List Bool)
      → let after = (migrate dir (record { catalogue = cat; faults = faults })).1.catalogue in
        Extends cat after
        × (migrate dir (record { catalogue = after; faults = [] })
            ≡ migrate dir (record { catalogue = cat; faults = [] }))
  unfolding migrate
  migrate-retry cat faults = migrate_names-retry _ cat faults

  -- A run that succeeds ends with what a run without faults ends with.
  pub migrate-success :
      (cat : Catalogue) (faults : List Bool)
      → (migrate dir (record { catalogue = cat; faults = faults })).0 ≡ true
      → migrate dir (record { catalogue = cat; faults = [] }) ≡ (
        true,
        record {
          catalogue = (migrate dir (record { catalogue = cat; faults = faults })).1.catalogue;
          faults = [];
        },
      )
  unfolding migrate
  migrate-success cat faults h =
      sym (migrate-retry cat faults).1 ∙ migrate_names-done _ cat faults h
