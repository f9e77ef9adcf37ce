-- ===== src/Config/DotEnv/Precedence.antt =====
-- Which assignment of a variable counts in loadDotEnv of internal/config/config.go.
use is_ntust_down.Prelude.{
  Option-cases, inl, inr, ◌≡◌, ap, Bool, Option, none, some, List, [], ◌∷◌, Text, same_text,
  same_text_iff, codes_key, arith, if◌then◌else◌,
}
use is_ntust_down.Store.Table.{lookup, lookup-upsert}
use is_ntust_down.Config.DotEnv.{
  Environment, scanned, parse_line, set_missing, apply_line, apply_lines, load_dot_env,
}

-- the value that the first line about a key gives it
unfoldable pub assigned : List Text → Text → Option Text
assigned [] key = none
assigned (line ∷ lines) key = elim (parse_line line) [
  | none ↦ assigned lines key
  | some (k, value) ↦ if same_text k key then some value else assigned lines key
]

abbrev pub or_else : Option Text → Option Text → Option Text
or_else (some value) other = some value
or_else none other = other

lookup-set_missing :
    (k value key : Text) (env env' : Environment)
    → set_missing k value env ≡ some env'
    → lookup key env' ≡ or_else (lookup key env) (if same_text k key then some value else none)
unfolding set_missing
lookup-set_missing k value key env env' h = ground (
  arith,
  lookup-upsert key k (λ (_ : Option Text). value) env,
  same_text_iff k key,
  ap (λ (t : Text). lookup t env) {x = k} {y = key},
)

lookup-apply_line :
    (line key : Text) (env env' : Environment)
    → apply_line line env ≡ some env'
    → lookup key env' ≡ or_else (lookup key env) (assigned (line ∷ []) key)
unfolding assigned apply_line
lookup-apply_line line key env env' h = elim (Option-cases (parse_line line)) [
  | inl e ↦ ground arith
  | inr ((k, value), e) ↦ ground (arith, lookup-set_missing k value key env env')
]

lookup-apply_lines :
    (lines : List Text) (env env' : Environment) (key : Text)
    → apply_lines lines env ≡ some env'
    → lookup key env' ≡ or_else (lookup key env) (assigned lines key)
unfolding apply_lines assigned
lookup-apply_lines [] env env' key h = ground arith
lookup-apply_lines (line ∷ lines) env env' key h = elim (Option-cases (apply_line line env)) [
  | inl e ↦ ground arith
  | inr (next, e) ↦
      ground (arith, lookup-apply_line line key env next, lookup-apply_lines lines next env' key)
]

-- Once a file has been loaded, every variable that the environment had set keeps its value, and every
-- other has the value that the first line about it gives, if there is one.
pub lookup-load_dot_env :
    (lines : List Text) (failed : Bool) (env env' : Environment) (key : Text)
    → load_dot_env (scanned lines failed) env ≡ some env'
    → lookup key env' ≡ or_else (lookup key env) (assigned lines key)
unfolding load_dot_env
lookup-load_dot_env lines failed env env' key h =
    grind (arith, λ (e : Environment). lookup-apply_lines lines env e key)
