-- ===== src/Web/Page/Glyphs.antt =====
-- The glyphs of internal/web/server.go.
use is_ntust_down.Prelude.{
  ◌≡◌, refl, ap, Option, none, some, String, str_eq, if◌then◌else◌, sym, ◌∙◌,
}
use mathlib.Core.Option.{some-injective}
use is_ntust_down.Probe.{State, up, degraded, down, unknown, retired}
use is_ntust_down.Web.Page.{glyph}

abbrev state_of_glyph : String → Option State
state_of_glyph s =
    if str_eq s "✓"
    then some up
    else if str_eq s "!"
    then some degraded
    else if str_eq s "✕"
    then some down
    else if str_eq s "—"
    then some retired
    else if str_eq s "?"
    then some unknown
    else none

state_of_glyph-glyph : (s : State) → state_of_glyph (glyph s) ≡ some s
state_of_glyph-glyph up = refl
state_of_glyph-glyph degraded = refl
state_of_glyph-glyph down = refl
state_of_glyph-glyph unknown = refl
state_of_glyph-glyph retired = refl

-- Two states that show the same glyph are the same, so that the page can be read without its colours.
glyph_injective : (s t : State) → glyph s ≡ glyph t → s ≡ t
glyph_injective s t h =
    some-injective s t (sym (state_of_glyph-glyph s) ∙ ap state_of_glyph h ∙ state_of_glyph-glyph t)
