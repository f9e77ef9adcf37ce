-- ===== src/Prelude/Cuts.antt =====
-- What the program uses of Go's `strings` to take texts apart: Cut, TrimPrefix and Join, and the
-- equality of texts as keys.
use Prim.Native.Nat.{ℕ}
use mathlib.Core.Path.{◌≡◌, ap, sym, ◌∙◌}
use mathlib.Core.Bool.{Bool, true, false}
use mathlib.Core.List.{[], ◌∷◌, ◌++◌, reverse, reverse-append, reverse-reverse}
use mathlib.Core.Option.{Option, none, some}
use is_ntust_down.Prelude.Lists.{is_empty, length, drop}
use is_ntust_down.Prelude.Tests.{if◌then◌else◌}
use is_ntust_down.Prelude.Keys.{KeyEq}
use is_ntust_down.Prelude.Texts.{
  Text, same_text, same_text_iff, has_prefix, is_space, trim_left, trim_space,
}

instance abbrev pub codes_key : KeyEq Text
codes_key = record { same = same_text; same_iff = same_text_iff }

-- strings.TrimPrefix(s, prefix)
unfoldable pub trim_prefix : Text → Text → Text
unfolding has_prefix
trim_prefix s prefix = if has_prefix s prefix then drop (length prefix) s else s

abbrev before_and_after : ℕ → Option (Text × Text) → Option (Text × Text)
before_and_after c none = none
before_and_after c (some (before, after)) = some (c ∷ before, after)

-- strings.Cut(s, sep), `none` if the separator is not there
unfoldable pub cut : Text → Text → Option (Text × Text)
unfolding has_prefix
cut [] sep = if is_empty sep then some ([], []) else none
cut (c ∷ s) sep =
    let rest = cut s sep in
    if has_prefix (c ∷ s) sep then some ([], drop (length sep) (c ∷ s)) else before_and_after c rest

-- whether a text has no character that a test refuses
abbrev pub all_by : (ℕ → Bool) → Text → Bool
all_by p [] = true
all_by p (c ∷ s) = if p c then all_by p s else false

pub trim_left-plain : (c : ℕ) (s : Text) → is_space c ≡ false → trim_left (c ∷ s) ≡ c ∷ s
unfolding trim_left is_space
trim_left-plain c s h = rw h

-- A text that begins and ends with something else than white space is left as it is.
pub trim_space-framed :
    (c d : ℕ) (s : Text)
    → is_space c ≡ false
    → is_space d ≡ false
    → trim_space (c ∷ (s ++ d ∷ [])) ≡ c ∷ (s ++ d ∷ [])
unfolding trim_space
trim_space-framed c d s h k =
    rw (trim_left-plain c (s ++ d ∷ []) h, reverse-append (c ∷ s) (d ∷ []))
      (rw (trim_left-plain d (reverse (c ∷ s)) k)
        (sym (ap reverse (reverse-append (c ∷ s) (d ∷ []))) ∙ reverse-reverse (c ∷ (s ++ d ∷ []))))
