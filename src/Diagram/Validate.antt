-- ===== src/Diagram/Validate.antt =====
-- validate and main of scripts/diagrams/validate.mjs, with the checks on boxes that are near each other,
-- texts that run out of a box, borders that are crossed, and what every diagram has to show.
--
-- An element of the kit has all its properties and its numbers are finite, so that of the check (e)
-- the negative sizes are left. A file is a name and what JSON.parse makes of it, the elements of a
-- document or none.
pub mod Accepted
pub mod Accepting
mod Tests
use mathlib.Core.List.{flat_map}
use foundry_capital_markets.Prelude.{
  ℕ, Bool, true, not, ◌&&◌, ◌||◌, Option, none, some, List, [], ◌∷◌, ◌++◌, map, leb, if◌then◌else◌,
  is_empty, any, all, keep, Str, codes, starts_with, includes, ends_with,
}
use foundry_capital_markets.Prelude.Int.{ℤ, pos, ◌+ℤ◌, ◌-ℤ◌, leb_ℤ, ltb_ℤ, half, max_ℤ}
use foundry_capital_markets.Diagram.Geometry.{px, Frame}
use foundry_capital_markets.Diagram.Scene.{
  ElementId, TextFields, rectangle, text_element, arrow_element, Element, text,
}
use foundry_capital_markets.Diagram.Checks.{Error, has, unless, reference_errors}
use foundry_capital_markets.Diagram.Overlap.{
  right_of, bottom_of, overlaps, contains, Rect, rects, containers, is_container, frames, leaves,
  pair, overlap_errors,
}
use foundry_capital_markets.Diagram.Fits.{FitError, shown_height, check_fit}

-- Both rectangles have a part in common on one axis.
unfoldable pub band_x : Frame → Frame → Bool
unfolding right_of
band_x a b = ltb_ℤ a.left (right_of b) && ltb_ℤ b.left (right_of a)

unfoldable pub band_y : Frame → Frame → Bool
unfolding bottom_of
band_y a b = ltb_ℤ a.top (bottom_of b) && ltb_ℤ b.top (bottom_of a)

unfoldable pub gap : Frame → Frame → ℤ
unfolding right_of bottom_of max_ℤ ◌-ℤ◌
gap a b =
    max_ℤ (max_ℤ (a.left -ℤ right_of b) (b.left -ℤ right_of a))
      (max_ℤ (a.top -ℤ bottom_of b) (b.top -ℤ bottom_of a))

unfoldable pub is_swatch : Frame → Bool
is_swatch r = leb_ℤ r.width (px 32) && leb_ℤ r.height (px 32)

-- Two leaves that are nearer than `MIN_SIBLING_GAP`, less half a pixel.
unfoldable pub too_near : Frame → Frame → Bool
unfolding overlaps gap band_x band_y is_swatch ◌-ℤ◌
too_near a b =
    not (overlaps a b)
    && ltb_ℤ (gap a b) (px 40 -ℤ pos 1200)
    && leb_ℤ (pos 0) (gap a b)
    && (band_x a b || band_y a b)
    && not (is_swatch a)
    && not (is_swatch b)

unfoldable pub near_pairs : List Frame → List (Frame × Frame)
unfolding keep too_near
near_pairs [] = []
near_pairs (r ∷ rs) = map (pair r) (keep (too_near r) rs) ++ near_pairs rs

-- The check (g): whether a free text begins within a box and runs out of its bottom.
unfoldable pub spills : Frame → TextFields → Frame → Bool
unfolding right_of bottom_of shown_height ◌+ℤ◌ ◌-ℤ◌
spills f t r =
    leb_ℤ (r.left -ℤ px 1) f.left
    && leb_ℤ (right_of f) (right_of r +ℤ px 1)
    && leb_ℤ (r.top -ℤ px 1) f.top
    && leb_ℤ f.top (bottom_of r)
    && ltb_ℤ (bottom_of r +ℤ px 1) (f.top +ℤ pos (shown_height t))

unfoldable pub spill_errors : List Frame → Element → List (ElementId × Frame)
unfolding keep spills
spill_errors boxes e = elim e.kind [
  | rectangle ↦ []
  | arrow_element a ↦ []
  | text_element t ↦ elim t.container_id [
    | some c ↦ []
    | none ↦ map (λ r. (e.id, r)) (keep (spills e.frame t) boxes)
  ]
]

abbrev containers_of : List ElementId → List Rect → List Frame
containers_of ids rs = frames (keep (is_container ids) rs)

-- The check (h): `containerRects`, by their frames, and the leaves that cross a border of one.
unfoldable pub container_rects : List Rect → List Frame
unfolding keep containers is_container
container_rects rs = containers_of (containers rs) rs

unfoldable pub straddles : Frame → Frame → Bool
unfolding overlaps contains
straddles leaf c = overlaps leaf c && not (contains c leaf)

unfoldable pub straddling : List Rect → List (Frame × Frame)
unfolding flat_map keep straddles leaves container_rects
straddling rs =
    flat_map (λ leaf. map (pair leaf) (keep (straddles leaf) (container_rects rs))) (leaves rs)

-- The check (e).
unfoldable pub has_negative_size : Element → Bool
has_negative_size e = ltb_ℤ e.frame.width (pos 0) || ltb_ℤ e.frame.height (pos 0)

-- The texts, and what they have to show together.
unfoldable pub texts : List Element → List TextFields
texts [] = []
texts (e ∷ es) =
    let rest = texts es in
    elim e.kind [ rectangle ↦ rest | arrow_element a ↦ rest | text_element t ↦ t ∷ rest ]

pub data Problem : Type 0 where
  negative_size : ElementId → Problem
  reference : Error → Problem
  overlap : Frame × Frame → Problem
  spill : ElementId × Frame → Problem
  straddle : Frame × Frame → Problem
  fit : FitError → Problem
  no_title : Problem
  no_subtitle : Problem
  no_legend : Problem

unfoldable pub diagram_errors : List TextFields → List Problem
unfolding any includes starts_with
diagram_errors ts =
    unless (any (λ t. leb 28 t.font_size) ts) no_title
    ++ (unless (any (λ t. includes t.original_text (codes "Conclusion:")) ts) no_subtitle
        ++ unless (any (λ t. starts_with t.original_text (codes "Legend")) ts) no_legend)

-- The errors of `validate`, in their order.
unfoldable pub validate : List Element → List Problem
unfolding flat_map keep reference_errors overlap_errors spill_errors straddling check_fit
    diagram_errors texts
validate els =
    map (λ e. negative_size e.id) (keep has_negative_size els)
    ++ (map reference (reference_errors els)
        ++ (map overlap (overlap_errors els)
            ++ (map spill (flat_map (spill_errors (leaves (rects els))) els)
                ++ (map straddle (straddling (rects els))
                    ++ (map fit (flat_map (check_fit els) els) ++ diagram_errors (texts els))))))

-- The warnings of `validate`.
unfoldable pub warnings : List Element → List (Frame × Frame)
unfolding near_pairs
warnings els = near_pairs (leaves (rects els))

-- Whether a file counts as failed.
unfoldable pub fails : Option (List Element) → Bool
unfolding validate
fails none = true
fails (some els) = not (is_empty (validate els))

unfoldable pub diagrams : List (Str × Option (List Element)) → List (Str × Option (List Element))
unfolding keep ends_with
diagrams files = keep (λ f. ends_with f.0 (codes ".excalidraw")) files

-- The exit code of `main`, for what the directory holds.
unfoldable pub exit_code : List (Str × Option (List Element)) → ℕ
unfolding diagrams fails keep
exit_code files =
    if is_empty (diagrams files)
    then 1
    else if is_empty (keep (λ f. fails f.1) (diagrams files))
    then 0
    else 1
