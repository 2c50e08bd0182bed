-- ===== src/Diagram/Validate/Tests.antt =====
-- A directory with one diagram: a title, a subtitle and a legend.
use mathlib.Core.List.{flat_map}
use foundry_capital_markets.Prelude.{
  ℕ, ◌≡◌, refl, inl, Option, none, some, List, [], ◌∷◌, any, keep, In, Str, codes, starts_with,
  includes, ends_with, split_from, split, join,
}
use foundry_capital_markets.Prelude.Int.{◌+ℤ◌, ◌*ℤ◌}
use foundry_capital_markets.Diagram.Metrics.{
  helvetica, char_ratio, char_width, measure_line, hard_break, candidate, flush, wrap_words,
  wrap_paragraph, wrap_lines, unit, log2, half_even, nearest, double_width, floored, max_chars,
  wrap_text, widest, text_block_size,
}
use foundry_capital_markets.Diagram.Geometry.{div_ℤ, round, px}
use foundry_capital_markets.Diagram.Scene.{
  Element, Scene, empty_scene, by_id, fresh, rounded, base, TextSpec, text_lines, text_height,
  text_frame, text,
}
use foundry_capital_markets.Diagram.Checks.{
  has, container_errors, check_container, binding_errors, check_bindings, listed, listing_errors,
  check_listed, check_bound, reference_errors,
}
use foundry_capital_markets.Diagram.Overlap.{
  contains, rects, holds_one, containers, is_container, leaves, overlapping, overlap_errors,
}
use foundry_capital_markets.Diagram.Fits.{
  text_of, shown_lines, longest, free_errors, width_errors, rewrapped, text_errors, check_fit,
}
use foundry_capital_markets.Diagram.Validate.{
  spill_errors, container_rects, straddling, has_negative_size, texts, diagram_errors, validate,
  fails, diagrams, exit_code,
}
use foundry_capital_markets.Diagram.Validate.Accepted.{Accepted, exit_code-Accepted}

abbrev line_at : ℕ → ℕ → TextSpec
line_at y size = record {
  x = px 0;
  y = px y;
  width = some (px 400);
  font_size = size;
  font_family = helvetica;
}

abbrev title : Scene
title = text (codes "Flow") (line_at 0 28) empty_scene

abbrev poster : Scene
poster =
    text (codes "Legend") (line_at 90 16) (text (codes "Conclusion: safe") (line_at 50 20) title)

abbrev files : List (Str × Option (List Element))
files = (codes "flow.excalidraw", some poster.elements) ∷ (codes "notes.txt", none) ∷ []

poster_valid : exit_code files ≡ 0
unfolding exit_code diagrams fails validate text base fresh rounded round text_lines text_frame
    text_block_size text_height widest measure_line char_width char_ratio wrap_text wrap_lines
    max_chars floored nearest half_even log2 unit double_width wrap_paragraph wrap_words hard_break
    candidate flush flat_map split split_from keep ends_with starts_with includes any
    reference_errors check_container check_bindings check_listed check_bound container_errors
    binding_errors listing_errors has by_id listed overlap_errors overlapping leaves holds_one
    containers is_container rects contains spill_errors straddling container_rects has_negative_size
    check_fit text_errors width_errors free_errors longest shown_lines text_of join rewrapped
    diagram_errors texts div_ℤ ◌+ℤ◌ ◌*ℤ◌
poster_valid = refl

poster_listed : In (codes "flow.excalidraw", some poster.elements) (diagrams files)
unfolding diagrams keep ends_with starts_with
poster_listed = inl refl

exit_code-Accepted_example :
    (els : List Element) × ((some poster.elements ≡ some els) × Accepted els)
exit_code-Accepted_example =
    exit_code-Accepted files (codes "flow.excalidraw", some poster.elements) poster_valid
      poster_listed
