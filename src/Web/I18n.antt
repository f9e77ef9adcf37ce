-- ===== src/Web/I18n.antt =====
-- internal/web/i18n and `negotiate` of internal/web/server.go: the languages, their catalogues, and the
-- language of a request.
--
-- strconv.ParseFloat is a parameter. A float64 is the integer that it is in units of the smallest
-- positive one, infinity a number above all of them, and `one` is 1.0; NaN is left out.
pub mod En
pub mod Zh
pub mod Matching
pub mod Complete
use is_ntust_down.Prelude.{
  ℕ, zero, suc, String, Bool, true, false, Option, none, some, List, [], ◌∷◌, ◌||◌, ◌&&◌, any_by,
  is_empty, ltb, ◌==◌, ℤ, pos, negsuc, Text, codes, same_text, split, cut, trim_space, to_lower,
  text_key, if◌then◌else◌,
}
use is_ntust_down.Store.Table.{Table, lookup}
use is_ntust_down.Web.I18n.En.{en_us}
use is_ntust_down.Web.I18n.Zh.{zh_tw_catalog}

pub data Lang : Type 0 where
  zh_tw en : Lang

abbrev pub default_lang : Lang
default_lang = en

abbrev pub html_lang : Lang → String
html_lang zh_tw = "zh-Hant-TW"
html_lang en = "en"

abbrev pub other_lang : Lang → Lang
other_lang zh_tw = en
other_lang en = zh_tw

abbrev pub Catalog : Type 0
Catalog = Table String String

abbrev pub catalog_for : Lang → Catalog
catalog_for zh_tw = zh_tw_catalog
catalog_for en = en_us

-- the message, or the id of a message that is missing
abbrev pub message : Catalog → String → String
message catalog id = elim (lookup id catalog) [ none ↦ id | some text ↦ text ]

abbrev chinese : List Text
chinese = codes "zh" ∷ codes "zh-tw" ∷ codes "zh-hant" ∷ codes "zh-hant-tw" ∷ []

abbrev english : List Text
english = codes "en" ∷ codes "en-us" ∷ codes "en-gb" ∷ []

-- an explicit request
unfoldable pub parse_lang : Text → Option Lang
parse_lang s =
    let tag = to_lower (trim_space s) in
    if any_by (same_text tag) chinese
    then some zh_tw
    else if any_by (same_text tag) english
    then some en
    else none

pub record Tag : Type 0 where
  pub name : Text
  pub q : ℕ
  pub position : ℕ

abbrev pub add_tag : Text → ℤ → ℕ → List Tag → List Tag
add_tag name (pos (suc n)) position tags =
    record { name = name; q = suc n; position = position } ∷ tags
add_tag name _ position tags = tags

-- what stands before a separator, and after it: nothing if it is not there
abbrev pub cut_or_all : Text → Text → Text × Text
cut_or_all s sep = elim (cut s sep) [ none ↦ (s, []) | some parts ↦ parts ]

module _ (parse_float : Text → Option ℤ) (one : ℕ) where
  -- the weight that the parameters of a tag give it
  abbrev pub weight_of : Text → ℤ
  weight_of params = elim (cut params (codes "q=")) [
    | none ↦ pos one
    | some (_, qv) ↦ elim (parse_float (trim_space qv)) [ none ↦ pos one | some q ↦ q ]
  ]

  -- the loop over the parts of the header
  unfoldable pub tags_of : ℕ → List Text → List Tag
  tags_of i [] = []
  tags_of i (part ∷ parts) =
      let tags = tags_of (suc i) parts in
      let trimmed = trim_space part in
      let (head, params) = cut_or_all trimmed (codes ";") in
      let name = to_lower (trim_space head) in
      if is_empty trimmed || is_empty name then tags else add_tag name (weight_of params) i tags

-- the test of the sort
abbrev pub before : Tag → Tag → Bool
before a b = if a.q == b.q then ltb a.position b.position else ltb b.q a.q

unfoldable pub insert_tag : Tag → List Tag → List Tag
insert_tag t [] = t ∷ []
insert_tag t (u ∷ tags) =
    let rest = insert_tag t tags in if before u t then u ∷ rest else t ∷ u ∷ tags

-- sort.SliceStable
unfoldable pub sorted : List Tag → List Tag
unfolding insert_tag
sorted [] = []
sorted (t ∷ tags) = insert_tag t (sorted tags)

-- a tag without its subtags
unfoldable pub primary_of : Tag → Text
primary_of t = (cut_or_all t.name (codes "-")).0

-- the language of the first tag
unfoldable pub lang_of : List Tag → Lang
lang_of [] = default_lang
lang_of (t ∷ tags) =
    let primary = primary_of t in
    if same_text t.name (codes "*")
    then default_lang
    else if same_text primary (codes "zh")
    then zh_tw
    else if same_text primary (codes "en")
    then en
    else default_lang

unfoldable pub match_lang : (Text → Option ℤ) → ℕ → Text → Lang
unfolding tags_of sorted lang_of
match_lang parse_float one accept_language =
    lang_of (sorted (tags_of parse_float one 0 (split b',' accept_language)))

-- `q` is the `lang` parameter of the query, which may be empty
unfoldable pub negotiate : (Text → Option ℤ) → ℕ → Text → Text → Lang
unfolding match_lang parse_lang
negotiate parse_float one q accept_language = elim (if is_empty q then none else parse_lang q) [
  | none ↦ match_lang parse_float one accept_language
  | some l ↦ l
]
