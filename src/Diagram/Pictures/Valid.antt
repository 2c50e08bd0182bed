-- ===== src/Diagram/Pictures/Valid.antt =====
-- What the builders draw is valid.
use mathlib.Core.List.{flat_map}
use foundry_capital_markets.Prelude.{
  ◌≡◌, refl, true, List, [], ◌∷◌, arith, any, all, keep, All, starts_with, includes, split_from,
  split, join,
}
use foundry_capital_markets.Prelude.Int.{◌+ℤ◌, ◌-ℤ◌, ◌*ℤ◌, half, max_ℤ, min_ℤ}
use foundry_capital_markets.Diagram.Metrics.{
  char_ratio, char_width, measure_line, hard_break, candidate, flush, wrap_words, wrap_paragraph,
  wrap_lines, unit, log2, half_even, nearest, double_width, floored, max_chars, wrap_text, widest,
  text_block_size,
}
use foundry_capital_markets.Diagram.Geometry.{
  div_ℤ, round, same_side, centre, anchor, auto_sides, off, reach, around, bend, route, max_of,
  min_of, extent, sum_ℤ, column_x,
}
use foundry_capital_markets.Diagram.Scene.{
  same_prefix, same_id, by_id, touch, push_bound, fresh, rounded, base, text_lines, text_height,
  text_frame, text,
}
use foundry_capital_markets.Diagram.Shapes.{
  inner, block_height, measure, push_own, box_height, title_y, title_fields, box_frame, title_frame,
  titled, body_spec, box, label_spec, sublabel_spec, group,
}
use foundry_capital_markets.Diagram.Arrows.{
  sides_of, start_of, end_of, points_of, arrow_frame, arrow_fields, middle, arrow_label, bound,
  arrow, title_spec, subtitle_spec, header, swatch, item_spec, legend_rows, legend_group, legend,
}
use foundry_capital_markets.Diagram.Checks.{
  has, container_errors, check_container, binding_errors, check_bindings, is_entry, listed,
  listing_errors, check_listed, check_bound, reference_errors,
}
use foundry_capital_markets.Diagram.Overlap.{
  right_of, bottom_of, overlaps, contains, rects, holds_one, containers, is_container, leaves,
  overlapping, overlap_errors,
}
use foundry_capital_markets.Diagram.Fits.{
  text_of, shown_lines, longest, shown_height, bound_errors, free_errors, width_errors, rewrapped,
  text_errors, check_fit,
}
use foundry_capital_markets.Diagram.Validate.{
  gap, spills, spill_errors, container_rects, straddles, straddling, has_negative_size, texts,
  diagram_errors, validate,
}
use foundry_capital_markets.Diagram.Pictures.{
  ◌>>=◌, measure_item, draw_box, draw_group, draw_arrow, draw_header, draw_legend, at_x,
  first_width, row_height, place_items, place_row, nth, stacked, place_stack,
}
use foundry_capital_markets.Diagram.Pictures.Platform.{
  pe_row, draw_groups, draw_boxes, lane_arrows, draw_arrows, platform_topology,
}
use foundry_capital_markets.Diagram.Pictures.ScreenMap.{
  column_height, place_column, drill_arrows, draw_beats, draw_states, screen_key, ui_screen_map,
}
use foundry_capital_markets.Diagram.Pictures.RequestFlow.{
  request_arrows, request_key, request_decision_flow,
}
use foundry_capital_markets.Diagram.Pictures.AgentMap.{
  row_arrows, chain_arrows, draw_determinism, draw_human, draw_failures, agent_key,
  agent_architecture,
}
use foundry_capital_markets.Diagram.Pictures.SourceMap.{
  draw_gaps, draw_tests, source_arrows, source_key, src_architecture,
}
use foundry_capital_markets.Diagram.Pictures.Catalogue.{Diagram, all_diagrams}
use foundry_capital_markets.Diagram.Pictures.Built.{is_valid, Built, is_valid-Built}

-- The five of them are drawn and checked.
diagrams_checked : all (λ (d : Diagram). is_valid d.build) all_diagrams ≡ true
unfolding row_arrows chain_arrows draw_determinism draw_human draw_failures agent_key drill_arrows
    draw_beats draw_states screen_key draw_gaps draw_tests source_arrows source_key request_arrows
    request_key all agent_architecture anchor any around arrow arrow_fields arrow_frame arrow_label
    at_x auto_sides base bend binding_errors block_height body_spec bottom_of bound bound_errors box
    box_frame box_height by_id candidate centre char_ratio char_width check_bindings check_bound
    check_container check_fit check_listed column_height column_x container_errors container_rects
    contains diagram_errors div_ℤ draw_arrow draw_arrows draw_box draw_boxes draw_group draw_groups
    draw_header draw_legend end_of extent flat_map flush free_errors fresh gap group half hard_break
    has has_negative_size header includes inner is_entry is_valid item_spec join keep label_spec
    lane_arrows leaves holds_one containers is_container first_width legend legend_group legend_rows
    listed listing_errors longest max_chars floored nearest half_even log2 unit double_width max_of
    max_ℤ measure measure_item measure_line middle min_of min_ℤ nth off overlap_errors overlapping
    overlaps pe_row place_column place_items place_row place_stack platform_topology points_of
    push_bound push_own reach rects reference_errors request_decision_flow rewrapped right_of round
    rounded route row_height same_id same_prefix same_side shown_height shown_lines sides_of
    spill_errors spills split split_from src_architecture stacked start_of starts_with straddles
    straddling sublabel_spec subtitle_spec sum_ℤ swatch text text_block_size text_errors text_frame
    text_height text_lines text_of texts title_fields title_frame title_spec title_y titled touch
    ui_screen_map validate widest width_errors wrap_lines wrap_paragraph wrap_text wrap_words ◌*ℤ◌
    ◌+ℤ◌ ◌-ℤ◌ ◌>>=◌
diagrams_checked = refl

all-All :
    (ds : List Diagram)
    → all (λ (d : Diagram). is_valid d.build) ds ≡ true
    → All (λ (d : Diagram). Built d.build) ds
unfolding all
all-All [] h = tt
all-All (d ∷ ds) h = (is_valid-Built d.build (ground (arith, h)), all-All ds (ground (arith, h)))

-- Every builder of `DIAGRAMS` ends, and the validator finds nothing in the scene that it has drawn.
pub all_diagrams-Built : All (λ (d : Diagram). Built d.build) all_diagrams
all_diagrams-Built = all-All all_diagrams diagrams_checked
