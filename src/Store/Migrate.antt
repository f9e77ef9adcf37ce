-- ===== src/Store/Migrate.antt =====
-- Migrate of internal/store/store.go and the statements of internal/store/migrations/*.sql.
--
-- All statements are CREATE TABLE and CREATE INDEX with IF NOT EXISTS. Tables and indexes share one
-- space of names. The statements of a file go to the database as one call without arguments, which
-- is one transaction: a call that fails has changed nothing.
pub mod Settled
pub mod Again
pub mod Files
pub mod Boots
use is_ntust_down.Prelude.{
  ℕ, Bool, true, false, Option, none, some, List, [], ◌∷◌, map, ltb, leb, ◌==◌, all_by, any_by,
  String, str_eq, Text, codes_key, text_key, if◌then◌else◌, ◌||◌, ◌&&◌,
}
use is_ntust_down.Store.Table.{Table, lookup, upsert}

pub data Kind : Type 0 where
  bigserial : Kind
  text : Kind
  integer : Kind
  timestamptz : Kind
  timestamp : Kind
  date : Kind
  -- NUMERIC(5,2)
  numeric : Kind

pub record Column : Type 0 where
  pub name : String
  pub kind : Kind
  pub not_null : Bool
  -- DEFAULT 0
  pub default_zero : Bool

pub data Relation : Type 0 where
  -- the columns and those of the primary key
  table_of : List Column → List String → Relation
  -- the table and its columns, with whether each one is DESC
  index_on : String → List (String × Bool) → Relation

-- CREATE … IF NOT EXISTS
pub record Statement : Type 0 where
  pub creates : String
  pub relation : Relation

abbrev pub Catalogue : Type 0
Catalogue = Table String Relation

-- the connection: whether each coming call fails, where all calls after the list succeed
pub record Connection : Type 0 where
  pub catalogue : Catalogue
  pub faults : List Bool

abbrev pub has_columns : List Column → List (String × Bool) → Bool
has_columns columns [] = true
has_columns columns (wanted ∷ rest) =
    any_by (λ (c : Column). str_eq c.name wanted.0) columns && has_columns columns rest

abbrev pub indexable : List (String × Bool) → Option Relation → Bool
indexable wanted none = false
indexable wanted (some (table_of columns key)) = has_columns columns wanted
indexable wanted (some (index_on table columns)) = false

-- An index needs its table and the table's columns.
abbrev pub permitted : Relation → Catalogue → Bool
permitted (table_of columns key) cat = true
permitted (index_on table columns) cat = indexable columns (lookup table cat)

abbrev pub or_else : Relation → Option Relation → Relation
or_else new none = new
or_else new (some old) = old

abbrev pub apply : Statement → Catalogue → Option Catalogue
apply st cat =
    if permitted st.relation cat then some (upsert st.creates (or_else st.relation) cat) else none

unfoldable pub apply_all : List Statement → Catalogue → Option Catalogue
apply_all [] cat = some cat
apply_all (st ∷ sts) cat = elim (apply st cat) [ none ↦ none | some cat' ↦ apply_all sts cat' ]

-- what a call leaves: all of its statements, or nothing
abbrev pub committed : Catalogue → List Bool → Option Catalogue → Bool × Connection
committed cat rest none = (false, record { catalogue = cat; faults = rest })
committed cat rest (some cat') = (true, record { catalogue = cat'; faults = rest })

-- pool.Exec of a file
abbrev pub exec_file : List Statement → Catalogue → List Bool → Bool × Connection
exec_file sts cat [] = committed cat [] (apply_all sts cat)
exec_file sts cat (true ∷ rest) = (false, record { catalogue = cat; faults = rest })
exec_file sts cat (false ∷ rest) = committed cat rest (apply_all sts cat)

-- the embedded directory: the names of the files and what they hold
abbrev pub Directory : Type 0
Directory = Table Text (List Statement)

-- the order of Go's strings, on code points
abbrev pub before : Text → Text → Bool
before [] t = true
before (c ∷ s) [] = false
before (c ∷ s) (d ∷ t) = ltb c d || c == d && before s t

abbrev pub insert : Text → List Text → List Text
insert name [] = name ∷ []
insert name (other ∷ names) =
    let rest = insert name names in if before name other then name ∷ other ∷ names else other ∷ rest

-- sort.Strings
abbrev pub sort : List Text → List Text
sort [] = []
sort (name ∷ names) = insert name (sort names)

module _ (dir : Directory) where
  -- the loop, which ends at the first error
  unfoldable pub migrate_names : List Text → Catalogue → List Bool → Bool × Connection
  migrate_names [] cat faults = (true, record { catalogue = cat; faults = faults })
  migrate_names (name ∷ names) cat faults = elim (lookup name dir) [
    | none ↦ (false, record { catalogue = cat; faults = faults })
    | some sts ↦
        let (ok, conn) = exec_file sts cat faults in
        elim ok [ false ↦ (false, conn) | true ↦ migrate_names names conn.catalogue conn.faults ]
  ]

  -- whether the files were applied, and what they left
  unfoldable pub migrate : Connection → Bool × Connection
  migrate conn =
      migrate_names (sort (map (λ (f : Text × List Statement). f.0) dir)) conn.catalogue conn.faults
