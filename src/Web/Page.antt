-- ===== src/Web/Page.antt =====
-- What the template of the page calls (internal/web/server.go): pageData and the function map, and the
-- content security policy.
pub mod Glyphs
use is_ntust_down.Prelude.{ℕ, String, Option, none, some, List, [], ◌∷◌, str_append}
use is_ntust_down.Probe.{State, up, degraded, down, unknown, retired}
use is_ntust_down.Store.Schema.{Share}
use is_ntust_down.Web.I18n.{Lang, zh_tw, en, catalog_for, message, other_lang}
use is_ntust_down.Web.Labels.{Format}
use is_ntust_down.Web.Shown.{PageView}

-- What Go prints: the layouts "2006-01-02 15:04" and "2006-01-02 15:04:05", and Sprintf of a message
-- that takes a number.
pub record Printing : Type 0 where
  pub minute : ℕ → String
  pub second : ℕ → String
  pub with_number : String → ℕ → String

-- string(lang)
abbrev pub lang_text : Lang → String
lang_text zh_tw = "zh-TW"
lang_text en = "en"

abbrev pub glyph : State → String
glyph up = "✓"
glyph degraded = "!"
glyph down = "✕"
glyph retired = "—"
glyph unknown = "?"

abbrev pub pct : Format → Option Share → String
pct format none = "—"
pct format (some share) = format.percent share

module _ (printing : Printing) (view : PageView) where
  abbrev pub text : String → String
  text id = message (catalog_for view.lang) id

  abbrev pub history_label : ℕ → String
  history_label days = printing.with_number (text "label.history") days

  abbrev pub hours_label : ℕ → String
  hours_label hours = printing.with_number (text "label.history_hours") hours

  abbrev pub clock : Option ℕ → String
  clock none = text "label.never_checked"
  clock (some t) = printing.minute t

  abbrev pub offered_lang : String
  offered_lang = lang_text (other_lang view.lang)

abbrev joined : String → List String → String
joined separator [] = ""
joined separator (part ∷ []) = part
joined separator (part ∷ next ∷ parts) =
    str_append part (str_append separator (joined separator (next ∷ parts)))

-- `script_hash` is the base64 of the inlined script's SHA-256
abbrev pub csp_of : String → String
csp_of script_hash = joined "; " (
    "default-src 'self'"
    ∷ str_append "script-src 'self' 'sha256-" (str_append script_hash "'")
    ∷ "style-src 'self'"
    ∷ "img-src 'self' data:"
    ∷ "base-uri 'none'"
    ∷ "frame-ancestors 'none'"
    ∷ "form-action 'none'"
    ∷ [])
