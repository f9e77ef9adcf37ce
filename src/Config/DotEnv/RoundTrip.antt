-- ===== src/Config/DotEnv/RoundTrip.antt =====
-- Lines that loadDotEnv of internal/config/config.go reads back as they were meant.
use is_ntust_down.Prelude.{
  ℕ, ◌≡◌, refl, ◌∙◌, Bool, true, false, some, [], ◌∷◌, ◌++◌, ◌&&◌, ◌||◌, not, Text, codes, all_by,
  is_space, has_prefix, cut, trim_space, trim_prefix, trim_left, trim_left-plain, trim_space-framed,
  leb, ◌==◌, arith,
}
use mathlib.Core.List.{reverse, reverse-append, reverse-reverse, append_assoc}
use is_ntust_down.Config.DotEnv.{parse_line, unquote, double_quote}

-- the characters of the names of variables
abbrev is_name : ℕ → Bool
is_name c =
    leb b'A' c && leb c b'Z' || leb b'a' c && leb c b'z' || leb b'0' c && leb c b'9' || c == b'_'

-- `KEY="value"`
abbrev pub quoted_line : Text → Text → Text
quoted_line key value = key ++ (b'=' ∷ (double_quote ∷ (value ++ double_quote ∷ [])))

is_name-is_space : (c : ℕ) → is_name c ≡ true → is_space c ≡ false
unfolding is_space
is_name-is_space c h = ground arith

cut-key :
    (key rest : Text)
    → all_by is_name key ≡ true
    → cut (key ++ b'=' ∷ rest) (codes "=") ≡ some (key, rest)
unfolding cut has_prefix
cut-key [] rest h = refl
cut-key (c ∷ key) rest h = ground (arith, cut-key key rest)

-- A key is no prefix of a word and a space, and no such prefix is before its `=`.
has_prefix-key :
    (key rest word : Text)
    → all_by is_name key ≡ true
    → all_by (λ c. not (c == b'=')) word ≡ true
    → has_prefix (key ++ b'=' ∷ rest) (word ++ b' ' ∷ []) ≡ false
unfolding has_prefix
has_prefix-key [] rest [] h w = refl
has_prefix-key [] rest (d ∷ word) h w = ground arith
has_prefix-key (c ∷ key) rest [] h w = ground arith
has_prefix-key (c ∷ key) rest (d ∷ word) h w = ground (arith, has_prefix-key key rest word)

trim_prefix-key :
    (key rest : Text)
    → all_by is_name key ≡ true
    → trim_prefix (key ++ b'=' ∷ rest) (codes "export ") ≡ key ++ b'=' ∷ rest
unfolding trim_prefix
trim_prefix-key key rest h = rw (has_prefix-key key rest (codes "export") h refl)

not_comment :
    (c : ℕ) (key rest : Text)
    → all_by is_name (c ∷ key) ≡ true
    → has_prefix (c ∷ (key ++ b'=' ∷ rest)) (codes "#") ≡ false
unfolding has_prefix
not_comment c key rest h = ground arith

all_by-append : (p : ℕ → Bool) (s t : Text) → all_by p (s ++ t) ≡ all_by p s && all_by p t
all_by-append p [] t = refl
all_by-append p (c ∷ s) t = ground (arith, all_by-append p s t)

all_by-reverse : (p : ℕ → Bool) (s : Text) → all_by p (reverse s) ≡ all_by p s
all_by-reverse p [] = refl
all_by-reverse p (c ∷ s) =
    rw (reverse-append (c ∷ []) s, all_by-append p (reverse s) (c ∷ []), all_by-reverse p s)
      (ground arith)

trim_left-names : (s : Text) → all_by is_name s ≡ true → trim_left s ≡ s
trim_left-names [] h = unfold trim_left in refl
trim_left-names (c ∷ s) h = trim_left-plain c s (is_name-is_space c (ground arith))

trim_space-names : (s : Text) → all_by is_name s ≡ true → trim_space s ≡ s
unfolding trim_space
trim_space-names s h =
    rw (trim_left-names s h, trim_left-names (reverse s) (all_by-reverse is_name s ∙ h))
      (reverse-reverse s)

unquote-quoted : (value : Text) → unquote (double_quote ∷ (value ++ double_quote ∷ [])) ≡ value
unquote-quoted value = rw (reverse-append value (double_quote ∷ [])) (reverse-reverse value)

trim_space-quoted_line :
    (c : ℕ) (key value : Text)
    → is_space c ≡ false
    → trim_space (quoted_line (c ∷ key) value) ≡ quoted_line (c ∷ key) value
trim_space-quoted_line c key value h =
    let framed = append_assoc key (b'=' ∷ double_quote ∷ value) (double_quote ∷ []) in
    rw (← framed) (
      trim_space-framed c double_quote (key ++ b'=' ∷ double_quote ∷ value) h
        (unfold is_space in refl))

-- A line that gives a variable a value between double quotes is read as this variable and this
-- value, whatever the value holds, if the variable's name is of letters, digits and underscores.
pub parse_line-quoted_line :
    (c : ℕ) (key value : Text)
    → all_by is_name (c ∷ key) ≡ true
    → parse_line (quoted_line (c ∷ key) value) ≡ some (c ∷ key, value)
unfolding parse_line
parse_line-quoted_line c key value h =
    let rest = double_quote ∷ (value ++ double_quote ∷ []) in
    let plain = is_name-is_space c (ground arith) in
    ground (
      arith,
      trim_space-quoted_line c key value plain,
      not_comment c key rest h,
      trim_prefix-key (c ∷ key) rest h,
      cut-key (c ∷ key) rest h,
      trim_space-names (c ∷ key) h,
      trim_space-framed double_quote double_quote value (unfold is_space in refl)
          (unfold is_space in refl),
      unquote-quoted value,
    )
