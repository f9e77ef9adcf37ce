-- ===== src/Probe/LaunchToken.antt =====
-- extractMobileToken and decodeWSToken of internal/probe/moodle.go: the token on the page that Moodle
-- ends a mobile launch with. The four base64 decoders of Go's library are parameters.
pub mod Found
use is_ntust_down.Prelude.{
  ℕ, Bool, true, false, not, Option, none, some, List, [], ◌∷◌, ◌&&◌, ◌||◌, leb, ◌==◌, Text, codes,
  is_empty, drop, length, has_prefix, cut, if◌then◌else◌,
}

-- `[A-Za-z0-9+/=_\-]`
abbrev pub is_token_char : ℕ → Bool
is_token_char c =
    leb b'A' c && leb c b'Z'
    || leb b'a' c && leb c b'z'
    || leb b'0' c && leb c b'9'
    || c == b'+'
    || c == b'/'
    || c == b'='
    || c == b'_'
    || c == b'-'

abbrev pub take_while : (ℕ → Bool) → Text → Text
take_while p [] = []
take_while p (c ∷ s) = let rest = take_while p s in if p c then c ∷ rest else []

abbrev pub marker : Text
marker = codes "moodlemobile://token="

-- the token that a match at the start of a text takes
abbrev pub token_at_start : Text → Text
token_at_start s =
    if has_prefix s marker then take_while is_token_char (drop (length marker) s) else []

-- the token of the first match, or the empty text
unfoldable pub extract_mobile_token : Text → Text
unfolding has_prefix
extract_mobile_token [] = []
extract_mobile_token (c ∷ s) =
    let token = token_at_start (c ∷ s) in
    let later = extract_mobile_token s in if is_empty token then later else token

pub record Base64 : Type 0 where
  pub std : Text → Option Text
  pub raw_std : Text → Option Text
  pub url : Text → Option Text
  pub raw_url : Text → Option Text

abbrev or_by : Option Text → (Text → Option Text) → Text → Option Text
or_by none decode s = decode s
or_by (some raw) decode s = some raw

-- the first of the encodings that decodes
abbrev pub decoded : Base64 → Text → Option Text
decoded base64 s =
    or_by (or_by (or_by (base64.std s) base64.raw_std s) base64.url s) base64.raw_url s

abbrev pub separator : Text
separator = codes ":::"

-- what stands before the cut, or all of a text that has none
abbrev pub before_cut : Text → Option (Text × Text) → Text
before_cut s none = s
before_cut s (some (part, rest)) = part

-- the second part of SplitN
abbrev pub second_part : Option (Text × Text) → Option Text
second_part none = none
second_part (some (signature, rest)) =
    let token = before_cut rest (cut rest separator) in if is_empty token then none else some token

abbrev pub token_of : Option Text → Option Text
token_of none = none
token_of (some raw) = second_part (cut raw separator)

unfoldable pub decode_ws_token : Base64 → Text → Option Text
decode_ws_token base64 b64 = token_of (decoded base64 b64)
