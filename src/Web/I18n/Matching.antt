-- ===== src/Web/I18n/Matching.antt =====
-- What decides the language of an answer: `?lang=`, and which tag of Accept-Language.
use is_ntust_down.Prelude.{
  ℕ, zero, suc, ◌≤◌, ◌<◌, ◌≡◌, ◌↔◌, inl, inr, refl, ap, ◌∙◌, true, false, Option, none, some, List,
  [], ◌∷◌, ◌||◌, is_empty, ℤ, pos, negsuc, Text, codes, same_text_iff, split, cut, trim_space,
  to_lower, trim_left, same_text, ◌⊎◌, arith, Bool-cases, if◌then◌else◌, has_prefix,
}
use mathlib.Core.Option.{some-injective}
use is_ntust_down.Web.I18n.{
  Lang, zh_tw, Tag, weight_of, tags_of, parse_lang, negotiate, before, insert_tag, sorted,
  primary_of, lang_of, match_lang, add_tag, cut_or_all,
}

-- no tag has a greater weight
abbrev pub NoneAbove : ℕ → List Tag → Type 0
NoneAbove n [] = Unit
NoneAbove n (t ∷ tags) = (t.q ≤ n) × NoneAbove n tags

-- the earliest of the tags of the greatest weight
pub data IsPreferred (t : Tag) : List Tag → Type 0 where
  at_head : {tags : List Tag} → NoneAbove t.q tags → IsPreferred t (t ∷ tags)
  further : {u : Tag} {tags : List Tag} → u.q < t.q → IsPreferred t tags → IsPreferred t (u ∷ tags)

abbrev head : List Tag → Option Tag
head [] = none
head (t ∷ tags) = some t

-- the positions rise, from a lower bound
abbrev IsRising : ℕ → List Tag → Type 0
IsRising i [] = Unit
IsRising i (t ∷ tags) = (i ≤ t.position) × IsRising (suc t.position) tags

IsRising-weaken : (i j : ℕ) (tags : List Tag) → i ≤ j → IsRising j tags → IsRising i tags
IsRising-weaken i j [] h r = tt
IsRising-weaken i j (t ∷ tags) h r = (omega (arith, h, r.0), r.1)

add_tag-IsRising :
    (name : Text) (w : ℤ) (i : ℕ) (tags : List Tag)
    → IsRising (suc i) tags
    → IsRising i (add_tag name w i tags)
add_tag-IsRising name (pos zero) i tags h = IsRising-weaken i (suc i) tags (omega arith) h
add_tag-IsRising name (pos (suc n)) i tags h = (omega arith, h)
add_tag-IsRising name (negsuc n) i tags h = IsRising-weaken i (suc i) tags (omega arith) h

tags_of-IsRising :
    (parse_float : Text → Option ℤ) (one i : ℕ) (parts : List Text)
    → IsRising i (tags_of parse_float one i parts)
unfolding tags_of
tags_of-IsRising parse_float one i [] = tt
tags_of-IsRising parse_float one i (part ∷ parts) =
    let (name, params) = cut_or_all (trim_space part) (codes ";") in
    elim (Bool-cases (is_empty (trim_space part) || is_empty (to_lower (trim_space name)))) [
      | inl e ↦ rw e (
          IsRising-weaken i (suc i) (tags_of parse_float one (suc i) parts) (omega arith)
            (tags_of-IsRising parse_float one (suc i) parts))
      | inr e ↦ rw e (
          add_tag-IsRising (to_lower (trim_space name)) (weight_of parse_float one params) i
            (tags_of parse_float one (suc i) parts)
            (tags_of-IsRising parse_float one (suc i) parts))
    ]

NoneAbove-weaken : (m n : ℕ) (tags : List Tag) → m ≤ n → NoneAbove m tags → NoneAbove n tags
NoneAbove-weaken m n [] h a = tt
NoneAbove-weaken m n (t ∷ tags) h a = (omega (arith, h, a.0), NoneAbove-weaken m n tags h a.1)

IsPreferred-NoneAbove : (t : Tag) (tags : List Tag) → IsPreferred t tags → NoneAbove t.q tags
IsPreferred-NoneAbove t [] p = elim p [ ]
IsPreferred-NoneAbove t (_ ∷ tags) (at_head a) = (omega arith, a)
IsPreferred-NoneAbove t (u ∷ tags) (further h p) =
    (omega (arith, h), IsPreferred-NoneAbove t tags p)

IsPreferred-le :
    (t : Tag) (n : ℕ) (tags : List Tag) → IsPreferred t tags → NoneAbove n tags → t.q ≤ n
IsPreferred-le t n [] p b = elim p [ ]
IsPreferred-le t n (_ ∷ tags) (at_head a) b = b.0
IsPreferred-le t n (u ∷ tags) (further h p) b = IsPreferred-le t n tags p b.1

IsPreferred-unique : (t u : Tag) (tags : List Tag) → IsPreferred t tags → IsPreferred u tags → t ≡ u
IsPreferred-unique t u [] p q = elim p [ ]
IsPreferred-unique t u (_ ∷ tags) (at_head a) (at_head b) = refl
IsPreferred-unique t u (_ ∷ tags) (at_head a) (further k q) =
    absurd (omega (arith, k, IsPreferred-le u t.q tags q a))
IsPreferred-unique t u (_ ∷ tags) (further h p) (at_head b) =
    absurd (omega (arith, h, IsPreferred-le t u.q tags p b))
IsPreferred-unique t u (v ∷ tags) (further h p) (further k q) = IsPreferred-unique t u tags p q

-- what the sort puts first
abbrev IsFirst : ℕ → List Tag → Tag → Type 0
IsFirst i tags u = (head (sorted tags) ≡ some u) × IsPreferred u tags × (i ≤ u.position)

head-insert_tag :
    (t : Tag) (tags : List Tag) (u : Tag)
    → head tags ≡ some u
    → head (insert_tag t tags) ≡ some (if before u t then u else t)
unfolding insert_tag
head-insert_tag t [] u h = ground arith
head-insert_tag t (v ∷ tags) u h = ground arith

before-lt : (u t : Tag) → before u t ≡ true → t.position < u.position → t.q < u.q
before-lt u t h k = ground arith

before-le : (u t : Tag) → before u t ≡ false → u.q ≤ t.q
before-le u t h = ground arith

inserted-IsFirst :
    (i : ℕ) (t : Tag) (tags : List Tag) (u : Tag)
    → i ≤ t.position
    → IsFirst (suc t.position) tags u
    → IsFirst i (t ∷ tags) (if before u t then u else t)
unfolding sorted
inserted-IsFirst i t tags u r (h, p, k) = elim (Bool-cases (before u t)) [
  | inl e ↦ rw e (
    head-insert_tag t (sorted tags) u h ∙ rw e refl,
    further (before-lt u t e k) p,
    omega (arith, r, k),
  )
  | inr e ↦ rw e (
    head-insert_tag t (sorted tags) u h ∙ rw e refl,
    at_head (NoneAbove-weaken u.q t.q tags (before-le u t e) (IsPreferred-NoneAbove u tags p)),
    r,
  )
]

sorted-IsFirst :
    (i : ℕ) (t : Tag) (tags : List Tag) → IsRising i (t ∷ tags) → (u : Tag) × IsFirst i (t ∷ tags) u
unfolding sorted insert_tag
sorted-IsFirst i t [] r = (t, (refl, at_head tt, r.0))
sorted-IsFirst i t (v ∷ tags) r =
    let (u, first) = sorted-IsFirst (suc t.position) v tags r.1 in
    (if before u t then u else t, inserted-IsFirst i t (v ∷ tags) u r.0 first)

star-primary_of : (t : Tag) → t.name ≡ codes "*" → primary_of t ≡ codes "*"
unfolding primary_of cut has_prefix
star-primary_of t h = rw h refl

lang_of-zh :
    (t : Tag) (tags : List Tag) → (lang_of (t ∷ tags) ≡ zh_tw) ↔ (primary_of t ≡ codes "zh")
unfolding lang_of
lang_of-zh t tags = ground (
  arith,
  star-primary_of t,
  same_text_iff t.name (codes "*"),
  same_text_iff (primary_of t) (codes "zh"),
)

lang_of-head :
    (tags : List Tag) (u : Tag)
    → head tags ≡ some u
    → (lang_of tags ≡ zh_tw) ↔ (primary_of u ≡ codes "zh")
lang_of-head [] u h = cc
lang_of-head (t ∷ tags) u h = rw (some-injective t u h) (lang_of-zh u tags)

lang_of-sorted :
    (i : ℕ) (tags : List Tag)
    → IsRising i tags
    → (lang_of (sorted tags) ≡ zh_tw)
      ↔ ((t : Tag) × IsPreferred t tags × (primary_of t ≡ codes "zh"))
unfolding lang_of sorted
lang_of-sorted i [] r = (λ e. cc, λ (t, p, e). elim p [ ])
lang_of-sorted i (t ∷ tags) r =
    let (u, (h, p, k)) = sorted-IsFirst i t tags r in
    let (to, from) = lang_of-head (sorted (t ∷ tags)) u h in
    (
      λ e. (u, p, to e),
      λ (v, q, e). from (ap primary_of (IsPreferred-unique u v (t ∷ tags) p q) ∙ e),
    )

match_lang-zh :
    (parse_float : Text → Option ℤ) (one : ℕ) (accept_language : Text)
    → (match_lang parse_float one accept_language ≡ zh_tw) ↔ (
        (t : Tag) × IsPreferred t (tags_of parse_float one 0 (split b',' accept_language))
        × (primary_of t ≡ codes "zh"))
unfolding match_lang
match_lang-zh parse_float one accept_language =
    lang_of-sorted 0 (tags_of parse_float one 0 (split b',' accept_language))
      (tags_of-IsRising parse_float one 0 (split b',' accept_language))

negotiate-parse_lang :
    (parse_float : Text → Option ℤ) (one : ℕ) (q accept_language : Text)
    → negotiate parse_float one q accept_language
      ≡ elim (parse_lang q) [ none ↦ match_lang parse_float one accept_language | some l ↦ l ]
unfolding negotiate parse_lang to_lower trim_space trim_left same_text
negotiate-parse_lang parse_float one [] accept_language = refl
negotiate-parse_lang parse_float one (c ∷ q) accept_language = refl

chosen-zh :
    {P : Type 0} (asked : Option Lang) (fallback : Lang)
    → (fallback ≡ zh_tw) ↔ P
    → (elim asked [ none ↦ fallback | some l ↦ l ] ≡ zh_tw)
      ↔ ((asked ≡ some zh_tw) ⊎ ((asked ≡ none) × P))
chosen-zh none fallback (to, from) = (
  λ e. inr (refl, to e),
  λ c. elim c [ inl e ↦ absurd (ground (arith, e)) | inr (e, preferred) ↦ from preferred ],
)
chosen-zh (some l) fallback (to, from) = (
  λ e. inl (ap some e),
  λ c. elim c [
    | inl e ↦ some-injective l zh_tw e
    | inr (e, preferred) ↦ absurd (ground (arith, e))
  ],
)

-- The language of an answer is Chinese exactly if `?lang=` names Chinese, or names no language and
-- the tag of Accept-Language that counts most, the earliest of those of the greatest positive weight,
-- is of Chinese.
pub negotiate-zh :
    (parse_float : Text → Option ℤ) (one : ℕ) (q accept_language : Text)
    → (negotiate parse_float one q accept_language ≡ zh_tw) ↔ (
        (parse_lang q ≡ some zh_tw)
        ⊎ ((parse_lang q ≡ none)
            × ((t : Tag) × IsPreferred t (tags_of parse_float one 0 (split b',' accept_language))
                × (primary_of t ≡ codes "zh"))))
negotiate-zh parse_float one q accept_language =
    rw (negotiate-parse_lang parse_float one q accept_language) (
      chosen-zh (parse_lang q) (match_lang parse_float one accept_language)
        (match_lang-zh parse_float one accept_language))
