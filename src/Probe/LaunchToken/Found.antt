-- ===== src/Probe/LaunchToken/Found.antt =====
-- The token of a launch page is found (extractMobileToken and decodeWSToken of
-- internal/probe/moodle.go).
use is_ntust_down.Prelude.{
  ℕ, ◌+◌, ◌<◌, ◌≡◌, refl, ap, ◌∙◌, Bool, true, false, not, Option, none, some, [], ◌∷◌, ◌++◌, ◌==◌,
  ==_iff, Text, codes, is_empty, length, drop, has_prefix, contains, cut, all_by, arith,
}
use mathlib.Core.List.{append-nil}
use is_ntust_down.Probe.LaunchToken.{
  is_token_char, take_while, marker, token_at_start, extract_mobile_token, Base64, decoded,
  before_cut, second_part, token_of, decode_ws_token, separator,
}

-- the start of a text that a test accepts ends where it refuses
take_while-append :
    (p : ℕ → Bool) (s rest : Text)
    → all_by p s ≡ true
    → take_while p rest ≡ []
    → take_while p (s ++ rest) ≡ s
take_while-append p [] rest h k = k
take_while-append p (c ∷ s) rest h k = ground (arith, h, take_while-append p s rest)

has_prefix-append : (p s : Text) → has_prefix (p ++ s) p ≡ true
unfolding has_prefix
has_prefix-append [] s = refl
has_prefix-append (c ∷ p) s = ground (arith, has_prefix-append p s, ==_iff c c)

drop-append : (p s : Text) → drop (length p) (p ++ s) ≡ s
drop-append [] s = refl
drop-append (c ∷ p) s = drop-append p s

abbrev equals : Text
equals = b'=' ∷ []

abbrev pub without : ℕ → Text → Bool
without c = all_by λ d. not (d == c)

has_prefix-nil : (p : Text) → has_prefix [] (p ++ equals) ≡ false
unfolding has_prefix
has_prefix-nil [] = refl
has_prefix-nil (c ∷ p) = refl

-- A text whose only equals sign is its last character is no prefix of what holds it only later.
has_prefix-later :
    (y m p z : Text)
    → without b'=' m ≡ true
    → without b'=' p ≡ true
    → has_prefix y (p ++ equals) ≡ false
    → length p < length y + length m
    → has_prefix (y ++ (m ++ b'=' ∷ z)) (p ++ equals) ≡ false
unfolding has_prefix
has_prefix-later [] [] p z a b n l = absurd (omega (arith, l))
has_prefix-later [] (c ∷ m) [] z a b n l = ground arith
has_prefix-later [] (c ∷ m) (d ∷ p) z a b n l =
    ground (arith, has_prefix-later [] m p z, has_prefix-nil p, ==_iff c d)
has_prefix-later (e ∷ y) m [] z a b n l = n
has_prefix-later (e ∷ y) m (d ∷ p) z a b n l = ground (arith, has_prefix-later y m p z)

abbrev marked : Text
marked = codes "moodlemobile://token"

-- The search goes on where no marker stands.
extract_mobile_token-step :
    (c : ℕ) (s : Text)
    → has_prefix (c ∷ s) marker ≡ false
    → extract_mobile_token (c ∷ s) ≡ extract_mobile_token s
unfolding extract_mobile_token
extract_mobile_token-step c s n = rw n refl

marked_later :
    (y z : Text)
    → is_empty y ≡ false
    → has_prefix y marker ≡ false
    → has_prefix (y ++ (marker ++ z)) marker ≡ false
marked_later [] z e n = ground (arith, e)
marked_later (c ∷ y) z e n = has_prefix-later (c ∷ y) marked marked z refl refl n (omega arith)

contains-here : (c : ℕ) (s t : Text) → contains (c ∷ s) t ≡ false → has_prefix (c ∷ s) t ≡ false
unfolding contains
contains-here c s t h = ground (arith, h)

contains-later : (c : ℕ) (s t : Text) → contains (c ∷ s) t ≡ false → contains s t ≡ false
unfolding contains
contains-later c s t h = ground (arith, h)

-- Nothing is found before the first marker.
extract_mobile_token-before :
    (before rest : Text)
    → contains before marker ≡ false
    → extract_mobile_token (before ++ (marker ++ rest)) ≡ extract_mobile_token (marker ++ rest)
extract_mobile_token-before [] rest h = refl
extract_mobile_token-before (c ∷ before) rest h =
    extract_mobile_token-step c (before ++ (marker ++ rest))
      (marked_later (c ∷ before) rest refl (contains-here c before marker h))
    ∙ extract_mobile_token-before before rest (contains-later c before marker h)

take_while-token :
    (token rest : Text)
    → all_by is_token_char token ≡ true
    → take_while is_token_char rest ≡ []
    → token_at_start (marker ++ (token ++ rest)) ≡ token
take_while-token token rest h k =
    rw (has_prefix-append marker (token ++ rest), drop-append marker (token ++ rest))
      (take_while-append is_token_char token rest h k)

extract_mobile_token-marker :
    (token rest : Text)
    → is_empty token ≡ false
    → all_by is_token_char token ≡ true
    → take_while is_token_char rest ≡ []
    → extract_mobile_token (marker ++ (token ++ rest)) ≡ token
unfolding extract_mobile_token
extract_mobile_token-marker token rest e h k =
    rw (take_while-append is_token_char token rest h k, e) refl

cut-found :
    (s rest : Text)
    → without b':' s ≡ true
    → cut (s ++ (separator ++ rest)) separator ≡ some (s, rest)
unfolding cut has_prefix
cut-found [] rest h = refl
cut-found (c ∷ s) rest h = ground (arith, cut-found s rest)

cut-missing : (s : Text) → without b':' s ≡ true → cut s separator ≡ none
unfolding cut has_prefix
cut-missing [] h = refl
cut-missing (c ∷ s) h = ground (arith, cut-missing s)

-- what may follow the token
abbrev pub ended : Option Text → Text
ended none = []
ended (some private) = separator ++ private

before_cut-ended :
    (token : Text) (private : Option Text)
    → without b':' token ≡ true
    → before_cut (token ++ ended private) (cut (token ++ ended private) separator) ≡ token
before_cut-ended token none h =
    ap (λ (t : Text). before_cut t (cut t separator)) (append-nil token)
    ∙ ap (before_cut token) (cut-missing token h)
before_cut-ended token (some private) h =
    ap (before_cut (token ++ (separator ++ private))) (cut-found token private h)

abbrev pub launched : Text → Text → Option Text → Text
launched signature token private = signature ++ (separator ++ (token ++ ended private))

pub decode_ws_token-launched :
    (base64 : Base64) (payload signature token : Text) (private : Option Text)
    → decoded base64 payload ≡ some (launched signature token private)
    → without b':' signature ≡ true
    → without b':' token ≡ true
    → is_empty token ≡ false
    → decode_ws_token base64 payload ≡ some token
unfolding decode_ws_token
decode_ws_token-launched base64 payload signature token private d hs ht e =
    ap token_of d
    ∙ ap second_part (cut-found signature (token ++ ended private) hs)
    ∙ rw (before_cut-ended token private ht, e) refl

pub extract_mobile_token-page :
    (before payload rest : Text)
    → contains before marker ≡ false
    → is_empty payload ≡ false
    → all_by is_token_char payload ≡ true
    → take_while is_token_char rest ≡ []
    → extract_mobile_token (before ++ (marker ++ (payload ++ rest))) ≡ payload
extract_mobile_token-page before payload rest n e h k =
    extract_mobile_token-before before (payload ++ rest) n
    ∙ extract_mobile_token-marker payload rest e h k
