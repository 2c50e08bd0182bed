-- ===== src/Diagram/Fits.antt =====
-- The check (f) of scripts/diagrams/validate.mjs: texts fit, wrap as they are, and are legible.
--
-- `e.text` is the lines of a text element, joined. The line height is the kit's for every text, so
-- that the check of it has nothing to find.
use foundry_capital_markets.Prelude.{
  ℕ, ◌*◌, ◌/◌, none, some, List, [], ◌∷◌, ◌++◌, leb, length, Str, split, join, newline,
}
use foundry_capital_markets.Prelude.Int.{pos, pos_part, ◌+ℤ◌, ◌-ℤ◌, leb_ℤ}
use foundry_capital_markets.Diagram.Metrics.{grains, line_height, box_pad, wrap_text, widest}
use foundry_capital_markets.Diagram.Geometry.{px, Frame}
use foundry_capital_markets.Diagram.Scene.{
  ElementId, TextFields, rectangle, text_element, arrow_element, Element, by_id,
}
use foundry_capital_markets.Diagram.Checks.{unless}

pub data FitError : Type 0 where
  bound_too_wide : (text container : ElementId) → FitError
  bound_too_high : (text container : ElementId) → FitError
  free_too_wide : (text : ElementId) → FitError
  wraps_again : (text : ElementId) → FitError
  too_small : (text : ElementId) → FitError

-- `e.text`, and `e.text.split('\n')`.
unfoldable pub text_of : TextFields → Str
unfolding join
text_of t = join (newline ∷ []) t.lines

unfoldable pub shown_lines : TextFields → List Str
unfolding split text_of
shown_lines t = split newline (text_of t)

unfoldable pub longest : TextFields → ℕ
unfolding widest shown_lines
longest t = widest t.font_size t.font_family (shown_lines t)

-- `lines * e.fontSize * LINE_HEIGHT`.
unfoldable pub shown_height : TextFields → ℕ
unfolding shown_lines
shown_height t = length (shown_lines t) * t.font_size * line_height

-- A text in a container that is no arrow.
unfoldable pub bound_errors : ElementId → TextFields → Element → List FitError
unfolding longest shown_height ◌+ℤ◌ ◌-ℤ◌
bound_errors i t c =
    let found =
      unless (leb_ℤ (pos (longest t)) (c.frame.width -ℤ pos (2 * box_pad) +ℤ pos (grains / 2)))
        (bound_too_wide i c.id)
      ++ unless (leb_ℤ (pos (shown_height t)) (c.frame.height -ℤ px 8)) (bound_too_high i c.id) in
    elim c.kind [ arrow_element a ↦ [] | rectangle ↦ found | text_element u ↦ found ]

-- A text without a container.
unfoldable pub free_errors : ElementId → Frame → TextFields → List FitError
unfolding longest ◌+ℤ◌
free_errors i f t = unless (leb_ℤ (pos (longest t)) (f.width +ℤ pos (grains / 2))) (free_too_wide i)

unfoldable pub width_errors : List Element → ElementId → Frame → TextFields → List FitError
unfolding bound_errors free_errors by_id
width_errors els i f t = elim t.container_id [
  | none ↦ free_errors i f t
  | some c ↦ elim (by_id els c) [ none ↦ [] | some e ↦ bound_errors i t e ]
]

-- `rewrapped`.
unfoldable pub rewrapped : Frame → TextFields → List Str
unfolding wrap_text text_of
rewrapped f t = wrap_text (text_of t) t.font_size (pos_part f.width) t.font_family

-- `MIN_BODY_FONT`.
abbrev pub min_body_font : ℕ
min_body_font = 16

unfoldable pub text_errors : List Element → ElementId → Frame → TextFields → List FitError
unfolding width_errors rewrapped shown_lines
text_errors els i f t =
    width_errors els i f t
    ++ (unless (leb (length (rewrapped f t)) (length (shown_lines t))) (wraps_again i)
        ++ unless (leb min_body_font t.font_size) (too_small i))

-- The round of the loop for an element.
unfoldable pub check_fit : List Element → Element → List FitError
unfolding text_errors
check_fit els e = elim e.kind [
  | rectangle ↦ []
  | arrow_element a ↦ []
  | text_element t ↦ text_errors els e.id e.frame t
]
