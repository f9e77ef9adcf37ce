-- ===== src/Config/DotEnv.antt =====
-- loadDotEnv of internal/config/config.go. The process environment is a table; the file is what the
-- scanner yields of it, its lines and whether it ended in an error.
pub mod Precedence
pub mod RoundTrip
use is_ntust_down.Prelude.{
  ℕ, Bool, true, false, Option, none, some, List, [], ◌∷◌, ◌&&◌, ◌||◌, not, Text, codes, cut,
  trim_prefix, trim_space, has_prefix, is_empty, all_by, ◌==◌, codes_key, if◌then◌else◌,
}
use mathlib.Core.List.{reverse}
use is_ntust_down.Store.Table.{Table, lookup, upsert}

abbrev pub Environment : Type 0
Environment = Table Text Text

pub data DotEnvFile : Type 0 where
  -- the path is empty, or no file is there
  missing : DotEnvFile
  -- the file cannot be opened
  unreadable : DotEnvFile
  -- the lines that were scanned, and whether the scanner failed after them
  scanned : List Text → Bool → DotEnvFile

abbrev pub double_quote : ℕ
double_quote = 34

abbrev single_quote : ℕ
single_quote = 39

abbrev is_quote : ℕ → Bool
is_quote c = c == double_quote || c == single_quote

-- what is left of a value whose first character is `c`: `backwards` is the rest of it, reversed
abbrev unquote_from : Text → ℕ → Text → Text
unquote_from value c [] = value
unquote_from value c (d ∷ backwards) = if is_quote c && c == d then reverse backwards else value

abbrev pub unquote : Text → Text
unquote [] = []
unquote (c ∷ rest) = unquote_from (c ∷ rest) c (reverse rest)

-- the key and the value of a line, if it has them
unfoldable pub parse_line : Text → Option (Text × Text)
parse_line raw =
    let line = trim_space raw in
    if is_empty line || has_prefix line (codes "#")
    then none
    else elim (cut (trim_prefix line (codes "export ")) (codes "=")) [
      | none ↦ none
      | some (key, value) ↦ some (trim_space key, unquote (trim_space value))
    ]

-- what os.Setenv accepts
abbrev pub can_set : Text → Text → Bool
can_set key value =
    not (is_empty key)
    && all_by (λ c. not (c == b'=') && not (c == 0)) key
    && all_by (λ c. not (c == 0)) value

-- an assignment, unless the variable is set: `none` for an error of Setenv
unfoldable pub set_missing : Text → Text → Environment → Option Environment
set_missing key value env = elim (lookup key env) [
  | some old ↦ some env
  | none ↦ if can_set key value then some (upsert key (λ _. value) env) else none
]

-- one line
unfoldable pub apply_line : Text → Environment → Option Environment
apply_line line env = elim (parse_line line) [
  | none ↦ some env
  | some (key, value) ↦ set_missing key value env
]

-- the loop over the lines
unfoldable pub apply_lines : List Text → Environment → Option Environment
apply_lines [] env = some env
apply_lines (line ∷ lines) env = elim (apply_line line env) [
  | none ↦ none
  | some env' ↦ apply_lines lines env'
]

unfoldable pub load_dot_env : DotEnvFile → Environment → Option Environment
unfolding apply_lines
load_dot_env missing env = some env
load_dot_env unreadable env = none
load_dot_env (scanned lines failed) env = elim (apply_lines lines env) [
  | none ↦ none
  | some env' ↦ if failed then none else some env'
]
