-- ===== src/Config/Reader.antt =====
-- The loader of internal/config/config.go: each reader returns a value and the problems it met. What
-- it calls of Go's library to parse a value is the parameter `Parsers`.
pub mod Positive
use is_ntust_down.Prelude.{
  ℕ, Bool, true, false, Option, none, some, List, [], ◌∷◌, ◌++◌, ◌||◌, any_by, is_empty, ℤ, pos,
  pos_part, leb_ℤ, Text, codes, same_text, split, trim_space, trim_right_slash, codes_key,
  if◌then◌else◌,
}
use is_ntust_down.Store.Table.{lookup}
use is_ntust_down.Config.DotEnv.{Environment}
use is_ntust_down.Config.Settings.{
  IpNet, Problem, bad_url, bad_integer, bad_duration, not_positive, bad_boolean, bad_cidr,
}

pub record Parsers : Type 0 where
  -- the scheme and the host
  pub parse_url : Text → Option (Text × Text)
  pub atoi : Text → Option ℤ
  -- time.ParseDuration, in nanoseconds
  pub parse_duration : Text → Option ℤ
  pub parse_cidr : Text → Option IpNet
  -- whether time.LoadLocation finds a name
  pub timezone_known : Text → Bool

-- a value, and the problems that the loader has added
abbrev pub Read : Type 0 → Type 0
Read A = A × List Problem

infixl 5 ◌>>=◌
abbrev pub ◌>>=◌ : {A B : Type 0} → Read A → (A → Read B) → Read B
m >>= f = ((f m.0).0, m.1 ++ (f m.0).1)

abbrev pub finish : {A : Type 0} → A → Read A
finish a = (a, [])

-- strconv.ParseBool
abbrev trues : List Text
trues = codes "1" ∷ codes "t" ∷ codes "T" ∷ codes "true" ∷ codes "TRUE" ∷ codes "True" ∷ []

abbrev falses : List Text
falses = codes "0" ∷ codes "f" ∷ codes "F" ∷ codes "false" ∷ codes "FALSE" ∷ codes "False" ∷ []

unfoldable pub parse_bool : Text → Option Bool
unfolding same_text
parse_bool raw =
    if any_by (same_text raw) trues
    then some true
    else if any_by (same_text raw) falses
    then some false
    else none

-- a variable that is set to something
abbrev given : Option Text → Option Text
given none = none
given (some raw) = if is_empty raw then none else some raw

abbrev add_part : Text → List Text → List Text
add_part part parts =
    let trimmed = trim_space part in if is_empty trimmed then parts else trimmed ∷ parts

unfoldable pub trimmed_parts : List Text → List Text
trimmed_parts [] = []
trimmed_parts (part ∷ parts) = add_part part (trimmed_parts parts)

module _ (p : Parsers) (env : Environment) where
  abbrev pub set_value : Text → Option Text
  set_value key = given (lookup key env)

  abbrev pub value_or : Text → Text → Text
  value_or key default = elim (set_value key) [ none ↦ default | some raw ↦ raw ]

  unfoldable pub str : Text → Text → Read Text
  str key default = (value_or key default, [])

  abbrev is_absolute : Text → Bool
  is_absolute raw = elim (p.parse_url raw) [
    | none ↦ false
    | some (scheme, host) ↦ if is_empty scheme || is_empty host then false else true
  ]

  unfoldable pub url : Text → Text → Read Text
  url key default =
      let raw = value_or key default in
      (trim_right_slash raw, if is_absolute raw then [] else bad_url key ∷ [])

  unfoldable pub int_val : Text → ℤ → Read ℤ
  int_val key default = elim (set_value key) [
    | none ↦ (default, [])
    | some raw ↦ elim (p.atoi raw) [ none ↦ (default, bad_integer key ∷ []) | some n ↦ (n, []) ]
  ]

  unfoldable pub dur : Text → ℕ → Read ℕ
  dur key default = elim (set_value key) [
    | none ↦ (default, [])
    | some raw ↦ elim (p.parse_duration raw) [
      | none ↦ (default, bad_duration key ∷ [])
      | some d ↦ if leb_ℤ d (pos 0) then (default, not_positive key ∷ []) else (pos_part d, [])
    ]
  ]

  unfoldable pub bool_val : Text → Bool → Read Bool
  unfolding parse_bool
  bool_val key default = elim (set_value key) [
    | none ↦ (default, [])
    | some raw ↦ elim (parse_bool raw) [ none ↦ (default, bad_boolean key ∷ []) | some b ↦ (b, []) ]
  ]

  unfoldable pub list : Text → Text → Read (List Text)
  unfolding trimmed_parts
  list key default = (trimmed_parts (split b',' (value_or key default)), [])

  -- the loop of `cidrs`
  unfoldable pub cidrs_of : Text → List Text → Read (List IpNet)
  cidrs_of key [] = ([], [])
  cidrs_of key (part ∷ parts) =
      let (networks, problems) = cidrs_of key parts in
      let trimmed = trim_space part in
      if is_empty trimmed then (networks, problems) else elim (p.parse_cidr trimmed) [
        | none ↦ (networks, bad_cidr key trimmed ∷ problems)
        | some network ↦ (network ∷ networks, problems)
      ]

  unfoldable pub cidrs : Text → Text → Read (List IpNet)
  unfolding cidrs_of
  cidrs key default =
      let raw = value_or key default in
      if is_empty (trim_space raw) then ([], []) else cidrs_of key (split b',' raw)
