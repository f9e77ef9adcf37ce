-- ===== src/Store/Migrate/Boots.antt =====
-- Boots of the program on an empty database, each of which runs Migrate of internal/store/store.go.
use is_ntust_down.Prelude.{◌≡◌, refl, ◌∙◌, Bool, true, same_text, List, [], ◌∷◌}
use is_ntust_down.Store.Table.{lookup, upsert}
use is_ntust_down.Store.Migrate.{Catalogue, Directory, apply_all, migrate_names, migrate}
use is_ntust_down.Store.Migrate.Again.{migrate-retry}
use is_ntust_down.Store.Migrate.Files.{migrations, schema}

-- Each boot has its own faults.
abbrev pub after_boots : Directory → List (List Bool) → Catalogue → Catalogue
after_boots dir [] cat = cat
after_boots dir (faults ∷ boots) cat =
    after_boots dir boots (migrate dir (record { catalogue = cat; faults = faults })).1.catalogue

after_boots-retry :
    (dir : Directory) (boots : List (List Bool)) (cat : Catalogue)
    → migrate dir (record { catalogue = after_boots dir boots cat; faults = [] })
      ≡ migrate dir (record { catalogue = cat; faults = [] })
after_boots-retry dir [] cat = refl
after_boots-retry dir (faults ∷ boots) cat =
    after_boots-retry dir boots
      (migrate dir (record { catalogue = cat; faults = faults })).1.catalogue
    ∙ (migrate-retry dir cat faults).1

clean_boot :
    migrate migrations (record { catalogue = []; faults = [] })
    ≡ (true, record { catalogue = schema; faults = [] })
unfolding migrate migrate_names apply_all lookup upsert same_text
clean_boot = refl

-- From an empty database, after any number of boots whose migration stopped at any call, a boot
-- whose calls do not fail succeeds and leaves the five tables and the two indexes that the files
-- describe, and nothing else.
pub boots-schema :
    (boots : List (List Bool))
    → migrate migrations (record { catalogue = after_boots migrations boots []; faults = [] })
      ≡ (true, record { catalogue = schema; faults = [] })
boots-schema boots = after_boots-retry migrations boots [] ∙ clean_boot
