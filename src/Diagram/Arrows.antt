-- ===== src/Diagram/Arrows.antt =====
-- `arrow`, `header` and `legend` of the class Scene of scripts/diagrams/diagram-kit.mjs.
use foundry_capital_markets.Prelude.{
  ℕ, ◌+◌, ◌*◌, Option, none, some, List, [], ◌∷◌, map, if◌then◌else◌, length, is_empty, Str,
}
use foundry_capital_markets.Prelude.Int.{ℤ, pos, pos_part, ◌+ℤ◌, ◌-ℤ◌, half}
use foundry_capital_markets.Diagram.Metrics.{helvetica, box_pad, wrap_text, text_block_size}
use foundry_capital_markets.Diagram.Geometry.{
  div_ℤ, round, px, Point, Frame, Side, anchor, auto_sides, off, Elbow, route, extent, sum_ℤ,
}
use foundry_capital_markets.Diagram.Scene.{
  arr, swa, ElementId, bound_arrow, ArrowFields, rectangle, arrow_element, Element, Scene,
  push_bound, fresh, base, TextSpec, text_height, text,
}
use foundry_capital_markets.Diagram.Shapes.{Placed, inner, GroupSpec, group}

-- The options of `arrow`; an empty label is none.
pub record ArrowOpts : Type 0 where
  pub sides : Option (Side × Side)
  pub gap : ℤ
  pub elbow : Elbow
  pub detour : ℤ
  pub label : Str
  pub label_size : ℕ
  pub label_width : ℤ
  pub label_dx : ℤ
  pub label_dy : ℤ
  pub label_at : Option Point

unfoldable pub sides_of : Placed → Placed → ArrowOpts → Side × Side
unfolding auto_sides
sides_of from to opts = elim opts.sides [ some ss ↦ ss | none ↦ auto_sides from.frame to.frame ]

-- `s` and `e`.
unfoldable pub start_of : Placed → Placed → ArrowOpts → Point
unfolding sides_of off anchor
start_of from to opts =
    let side = (sides_of from to opts).0 in off (anchor from.frame side) side opts.gap

unfoldable pub end_of : Placed → Placed → ArrowOpts → Point
unfolding sides_of off anchor
end_of from to opts =
    let side = (sides_of from to opts).1 in off (anchor to.frame side) side opts.gap

unfoldable pub points_of : Placed → Placed → ArrowOpts → List Point
unfolding sides_of start_of end_of route ◌-ℤ◌
points_of from to opts =
    let ss = sides_of from to opts in
    let s = start_of from to opts in
    let e = end_of from to opts in route ss.0 ss.1 opts.elbow opts.detour (e.x -ℤ s.x) (e.y -ℤ s.y)

unfoldable pub arrow_frame : Placed → Placed → ArrowOpts → Frame
unfolding start_of points_of extent
arrow_frame from to opts = record {
  left = (start_of from to opts).x;
  top = (start_of from to opts).y;
  width = extent (map (λ (p : Point). p.x) (points_of from to opts));
  height = extent (map (λ (p : Point). p.y) (points_of from to opts));
}

unfoldable pub arrow_fields : Placed → Placed → ArrowOpts → ArrowFields
unfolding points_of round
arrow_fields from to opts = record {
  points = map (λ (p : Point). record { x = round p.x; y = round p.y }) (points_of from to opts);
  start_binding = from.id;
  end_binding = to.id;
}

-- `mid`: the centroid of the points, if the options give no place.
unfoldable pub middle : Placed → Placed → ArrowOpts → Point
unfolding start_of points_of sum_ℤ div_ℤ ◌+ℤ◌
middle from to opts = elim opts.label_at [
  | some p ↦ p
  | none ↦
      let pts = points_of from to opts in
      let s = start_of from to opts in
      record {
        x = s.x +ℤ div_ℤ (sum_ℤ (map (λ (p : Point). p.x) pts)) (length pts);
        y = s.y +ℤ div_ℤ (sum_ℤ (map (λ (p : Point). p.y) pts)) (length pts);
      }
]

unfoldable pub arrow_label : Placed → Placed → ArrowOpts → TextSpec
unfolding middle wrap_text text_block_size half ◌+ℤ◌ ◌-ℤ◌
arrow_label from to opts =
    let mid = middle from to opts in
    let lines = wrap_text opts.label opts.label_size (pos_part opts.label_width) helvetica in
    let size = text_block_size lines opts.label_size helvetica in
    record {
      x = mid.x -ℤ half opts.label_width +ℤ opts.label_dx;
      y = mid.y -ℤ half (pos size.height) +ℤ opts.label_dy;
      width = some opts.label_width;
      font_size = opts.label_size;
      font_family = helvetica;
    }

-- The arrow and the entries of its two ends; `none` where an end is not in the scene.
unfoldable pub bound : ElementId → Placed → Placed → List Element → Option (List Element)
unfolding push_bound
bound i from to es = elim (push_bound from.id (bound_arrow i) es) [
  | none ↦ none
  | some fs ↦ push_bound to.id (bound_arrow i) fs
]

unfoldable pub arrow : Placed → Placed → ArrowOpts → Scene → Option Scene
unfolding base fresh bound text
arrow from to opts s =
    let s1 = base arr (arrow_element (arrow_fields from to opts)) (arrow_frame from to opts) s in
    elim (bound (fresh arr s) from to s1.elements) [
      | none ↦ none
      | some es ↦
          let s2 = record s1 { elements = es } in
          some (if is_empty opts.label then s2 else text opts.label (arrow_label from to opts) s2)
    ]

unfoldable pub title_spec : ℤ → ℤ → ℤ → TextSpec
title_spec x y width = record {
  x = x;
  y = y;
  width = some width;
  font_size = 28;
  font_family = helvetica;
}

-- Below the title, of which the height is that of its element, which is rounded.
unfoldable pub subtitle_spec : ℤ → ℤ → ℤ → Str → TextSpec
unfolding title_spec text_height round ◌+ℤ◌
subtitle_spec x y width title = record {
  x = x;
  y = y +ℤ round (text_height title (title_spec x y width)) +ℤ px 10;
  width = some width;
  font_size = 20;
  font_family = helvetica;
}

-- `header`.
unfoldable pub header : ℤ → ℤ → ℤ → Str → Str → Scene → Scene
unfolding text
header x y width title subtitle s =
    text subtitle (subtitle_spec x y width title) (text title (title_spec x y width) s)

unfoldable pub swatch : ℤ → ℤ → Frame
unfolding ◌+ℤ◌
swatch x cursor = record { left = x +ℤ pos box_pad; top = cursor; width = px 26; height = px 26 }

unfoldable pub item_spec : ℤ → ℤ → ℤ → TextSpec
unfolding inner ◌+ℤ◌ ◌-ℤ◌
item_spec x cursor width = record {
  x = x +ℤ pos box_pad +ℤ px 26 +ℤ px 12;
  y = cursor +ℤ px 3;
  width = some (inner width -ℤ px 26 -ℤ px 12);
  font_size = 16;
  font_family = helvetica;
}

-- The rows of `legend`, from the cursor on.
unfoldable pub legend_rows : ℤ → ℤ → List Str → ℤ → Scene → Scene
unfolding base text ◌+ℤ◌
legend_rows x width [] cursor s = s
legend_rows x width (item ∷ items) cursor s =
    legend_rows x width items (cursor +ℤ px 34)
      (text item (item_spec x cursor width) (base swa rectangle (swatch x cursor) s))

unfoldable pub legend_group : ℤ → ℤ → ℤ → Str → List Str → GroupSpec
legend_group x y width title items = record {
  frame = record {
    left = x;
    top = y;
    width = width;
    height = px (16 + 24 + 12 + length items * 34 + 12);
  };
  label = title;
  label_size = 20;
  sublabel = [];
  sublabel_size = 16;
}

-- `legend`.
unfoldable pub legend : ℤ → ℤ → ℤ → Str → List Str → Scene → Scene × Placed
unfolding group legend_rows legend_group ◌+ℤ◌
legend x y width title items s =
    let g = group (legend_group x y width title items) s in
    (legend_rows x width items (y +ℤ px (16 + 24 + 14)) g.0, g.1)
