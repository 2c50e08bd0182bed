-- ===== src/Diagram/Svg.antt =====
-- scripts/diagrams/render-svg.mjs: escaping, numbers, rectangles, texts, and the picture's frame.
--
-- Arrows are left out: the rounded corners and heads of their paths are computed with square roots
-- and angles in floating point. Stroke widths are in grains, as all lengths.
pub mod Escaping
pub mod Canvas
mod Tests
use mathlib.Core.List.{flat_map}
use foundry_capital_markets.Prelude.{
  ℕ, zero, suc, ◌+◌, ◌-◌, ◌*◌, ◌/◌, ◌%◌, Bool, not, ◌||◌, Option, none, some, List, [], ◌∷◌, ◌++◌,
  ltb, ◌==◌, if◌then◌else◌, length, is_empty, all, Str, codes, ◌===◌, split, join, cat, newline,
}
use foundry_capital_markets.Prelude.Int.{ℤ, pos, negsuc, ◌+ℤ◌, ◌*ℤ◌, ltb_ℤ, half, min_ℤ}
use foundry_capital_markets.Diagram.Metrics.{grains, cent, hand, mono, line_height}
use foundry_capital_markets.Diagram.Geometry.{div_ℤ, round, px, Frame}
use foundry_capital_markets.Diagram.Scene.{TextFields, rounded}

-- `s.replace(/c/g, by)`, for a single character.
unfoldable pub replace_char : ℕ → Str → Str → Str
unfolding flat_map
replace_char c by s = flat_map (λ d. if d == c then by else d ∷ []) s

-- `escapeXml`: four replacements, one after the other.
unfoldable pub escape_xml : Str → Str
unfolding replace_char
escape_xml s = replace_char b'"' (codes "&quot;") (
    replace_char b'>' (codes "&gt;")
      (replace_char b'<' (codes "&lt;") (replace_char b'&' (codes "&amp;") s)))

-- `String(n)` of a natural number, before the digits of `out`; a digit a round.
unfoldable pub decimal_from : ℕ → ℕ → Str → Str
decimal_from zero n out = out
decimal_from (suc fuel) n out =
    let more = decimal_from fuel (n / 10) ((b'0' + n % 10) ∷ out) in
    if ltb n 10 then (b'0' + n) ∷ out else more

unfoldable pub decimal : ℕ → Str
unfolding decimal_from
decimal n = decimal_from (n + 1) n []

-- The digits behind the point of a number of hundredths, with no zero at the end.
unfoldable pub fraction : ℕ → Str
fraction h =
    if h % 100 == 0
    then []
    else if h % 10 == 0
    then b'.' ∷ (b'0' + h % 100 / 10) ∷ []
    else b'.' ∷ (b'0' + h % 100 / 10) ∷ (b'0' + h % 10) ∷ []

unfoldable pub hundredths_text : ℤ → Str
unfolding decimal fraction
hundredths_text (pos h) = decimal (h / 100) ++ fraction h
hundredths_text (negsuc h) = b'-' ∷ decimal ((h + 1) / 100) ++ fraction (h + 1)

-- A length in hundredths of a pixel, rounded, a half up.
unfoldable pub hundredths : ℤ → ℤ
unfolding div_ℤ ◌+ℤ◌
hundredths n = div_ℤ (n +ℤ pos (cent / 2)) cent

-- `num`: of a number of pixels. There is no -0 among the integers.
unfoldable pub num : ℤ → Str
unfolding hundredths hundredths_text
num n = hundredths_text (hundredths n)

pub data StrokeStyle : Type 0 where
  solid : StrokeStyle
  dashed : StrokeStyle
  dotted : StrokeStyle

pub data TextAlign : Type 0 where
  align_left : TextAlign
  align_center : TextAlign
  align_right : TextAlign

-- The fields of an element that only the renderer reads.
pub record Style : Type 0 where
  pub stroke_color : Str
  pub background_color : Str
  pub stroke_width : ℤ
  pub stroke_style : StrokeStyle
  pub rounded_corners : Bool
  pub text_align : TextAlign

unfoldable pub dash_array : StrokeStyle → ℤ → Option Str
unfolding num ◌*ℤ◌ half
dash_array solid width = none
dash_array dashed width = some (cat (num (width *ℤ pos 4) ∷ codes " " ∷ num (width *ℤ pos 4) ∷ []))
dash_array dotted width = some (cat (num (half width) ∷ codes " " ∷ num (width *ℤ pos 3) ∷ []))

unfoldable pub stroke_attrs : Style → Str
unfolding dash_array num escape_xml
stroke_attrs s = cat (
    codes "stroke=\""
    ∷ escape_xml s.stroke_color
    ∷ codes "\" stroke-width=\""
    ∷ num s.stroke_width
    ∷ codes "\""
    ∷ (elim (dash_array s.stroke_style s.stroke_width) [
      | none ↦ []
      | some dash ↦ cat (codes " stroke-dasharray=\"" ∷ dash ∷ codes "\"" ∷ [])
    ])
    ∷ codes " stroke-linecap=\"round\" stroke-linejoin=\"round\""
    ∷ [])

-- A quarter of the shorter side, at most 32 pixels.
unfoldable pub corner_radius : Frame → Style → ℤ
unfolding min_ℤ div_ℤ
corner_radius f s =
    if s.rounded_corners then min_ℤ (px 32) (div_ℤ (min_ℤ f.width f.height) 4) else pos 0

unfoldable pub fill_of : Style → Str
unfolding ◌===◌
fill_of s =
    if is_empty s.background_color || s.background_color === codes "transparent"
    then codes "none"
    else s.background_color

-- The four attributes of a frame.
unfoldable pub frame_attrs : Frame → Str
unfolding num
frame_attrs f = cat (
    codes "x=\""
    ∷ num f.left
    ∷ codes "\" y=\""
    ∷ num f.top
    ∷ codes "\" width=\""
    ∷ num f.width
    ∷ codes "\" height=\""
    ∷ num f.height
    ∷ codes "\""
    ∷ [])

unfoldable pub render_rectangle : Frame → Style → Str
unfolding corner_radius fill_of frame_attrs stroke_attrs escape_xml num
render_rectangle f s =
    let r = corner_radius f s in
    cat (
      codes "<rect "
      ∷ frame_attrs f
      ∷ (if ltb_ℤ (pos 0) r
          then cat (codes " rx=\"" ∷ num r ∷ codes "\" ry=\"" ∷ num r ∷ codes "\"" ∷ [])
          else [])
      ∷ codes " fill=\""
      ∷ escape_xml (fill_of s)
      ∷ codes "\" "
      ∷ stroke_attrs s
      ∷ codes " />"
      ∷ [])

-- `FONT_STACK`, where a family that is not listed is shown as Helvetica.
unfoldable pub font_stack : ℕ → Str
font_stack family =
    if family == hand
    then codes "Excalifont, Virgil, 'Segoe UI', 'Helvetica Neue', Arial, sans-serif"
    else if family == mono
    then codes "ui-monospace, 'Cascadia Mono', 'SF Mono', Menlo, Consolas, monospace"
    else codes "'Helvetica Neue', Helvetica, Arial, 'Segoe UI', sans-serif"

-- `firstBaseline` below the top: half of what the line has over the font, and 0.8 of the font.
unfoldable pub baseline : ℕ → ℕ
baseline font_size = font_size * ((line_height - grains) / 2) + font_size * (grains / 10 * 8)

unfoldable pub anchor_name : TextAlign → Str
anchor_name align_left = codes "start"
anchor_name align_center = codes "middle"
anchor_name align_right = codes "end"

unfoldable pub anchor_x : TextAlign → Frame → ℤ
unfolding ◌+ℤ◌ half
anchor_x align_left f = f.left
anchor_x align_center f = f.left +ℤ half f.width
anchor_x align_right f = f.left +ℤ f.width

-- The lines, from the baseline `y` on.
unfoldable pub spans : ℤ → ℤ → ℤ → List Str → Str
unfolding num escape_xml ◌+ℤ◌
spans x y step [] = []
spans x y step (line ∷ lines) = cat (
    codes "<tspan x=\""
    ∷ num x
    ∷ codes "\" y=\""
    ∷ num y
    ∷ codes "\">"
    ∷ escape_xml line
    ∷ codes "</tspan>"
    ∷ spans x (y +ℤ step) step lines
    ∷ [])

unfoldable pub render_text : Frame → TextFields → Style → Str
unfolding spans baseline font_stack anchor_name anchor_x escape_xml num split join
render_text f t s =
    let lines = split newline (join (newline ∷ []) t.lines) in
    cat (
      codes "<text font-family=\""
      ∷ escape_xml (font_stack t.font_family)
      ∷ codes "\" font-size=\""
      ∷ num (px t.font_size)
      ∷ codes "\" fill=\""
      ∷ escape_xml s.stroke_color
      ∷ codes "\" text-anchor=\""
      ∷ anchor_name s.text_align
      ∷ codes "\" style=\"white-space:pre\">"
      ∷ spans (anchor_x s.text_align f) (f.top +ℤ pos (baseline t.font_size))
          (pos (t.font_size * line_height)) lines
      ∷ codes "</text>"
      ∷ [])
