-- ===== src/Probe/Redact.antt =====
-- Redact of internal/probe/session.go: the regular expression sensitiveParam and its replacement, as a
-- scan from left to right.
--
-- A match is one of the names at a word boundary, an equals sign and at least one character of a value.
-- No name holds an equals sign, so the leftmost match is the one whose equals sign comes first, and a
-- name is looked for among the characters since the last one that no value holds.
pub mod Secrecy
use is_ntust_down.Prelude.{
  ℕ, ◌+◌, Bool, true, false, not, List, [], ◌∷◌, ◌++◌, ◌&&◌, ◌||◌, any_by, leb, ◌==◌, Text, codes,
  if◌then◌else◌,
}
use mathlib.Core.List.{reverse}

abbrev pub names : List Text
names =
    codes "wstoken"
    ∷ codes "passport"
    ∷ codes "token"
    ∷ codes "privatetoken"
    ∷ codes "code"
    ∷ codes "state"
    ∷ codes "password"
    ∷ []

-- what `(?i)` lets stand for a lower-case letter: its capital, ſ for s, and the Kelvin sign for k
abbrev pub fold : ℕ → ℕ
fold c =
    if leb b'A' c && leb c b'Z'
    then c + 32
    else if c == 0x17f
    then b's'
    else if c == 0x212a
    then b'k'
    else c

-- `[0-9A-Za-z_]`, which `\b` looks at
abbrev pub is_word : ℕ → Bool
is_word c =
    leb b'0' c && leb c b'9' || leb b'A' c && leb c b'Z' || leb b'a' c && leb c b'z' || c == b'_'

-- `[^&\s"']`
unfoldable pub is_value : ℕ → Bool
is_value c =
    not (c == b'&' || c == 9 || c == 10 || c == 12 || c == 13 || c == 32 || c == 34 || c == 39)

-- whether there is a word boundary between what stands before and a character
abbrev pub is_boundary : List ℕ → ℕ → Bool
is_boundary [] c = is_word c
is_boundary (d ∷ before) c = if is_word d then not (is_word c) else is_word c

-- whether what stands before, read backwards, ends in a name, given backwards too
abbrev pub ends_in : Text → List ℕ → Bool
ends_in [] before = false
ends_in (n ∷ name) [] = false
ends_in (n ∷ []) (c ∷ before) = fold c == n && is_boundary before c
ends_in (n ∷ m ∷ name) (c ∷ before) = fold c == n && ends_in (m ∷ name) before

unfoldable pub ends_in_name : List ℕ → Bool
ends_in_name before = any_by (λ name. ends_in (reverse name) before) names

abbrev pub starts_value : Text → Bool
starts_value [] = false
starts_value (c ∷ s) = is_value c

-- Outside a match, with what stands before since the last character that no value holds, or in the
-- value of one.
pub data Mode : Type 0 where
  reading : List ℕ → Mode
  hiding : Mode

abbrev pub stars : Text
stars = codes "***"

-- whether a character and what follows it are the rest of a match
abbrev pub opens : List ℕ → ℕ → Text → Bool
opens before c s = c == b'=' && ends_in_name before && starts_value s

abbrev pub emitted : Mode → ℕ → Text → Text
emitted (reading before) c s = if opens before c s then c ∷ stars else c ∷ []
emitted hiding c s = if is_value c then [] else c ∷ []

abbrev pub next_mode : Mode → ℕ → Text → Mode
next_mode (reading before) c s =
    if opens before c s then hiding else reading (if is_value c then c ∷ before else [])
next_mode hiding c s = if is_value c then hiding else reading []

unfoldable pub redact_from : Mode → Text → Text
unfolding is_value ends_in_name
redact_from mode [] = []
redact_from mode (c ∷ s) = emitted mode c s ++ redact_from (next_mode mode c s) s

unfoldable pub redact : Text → Text
unfolding redact_from
redact s = redact_from (reading []) s
