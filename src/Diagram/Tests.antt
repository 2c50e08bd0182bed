-- ===== src/Diagram/Tests.antt =====
-- Two boxes and an arrow between them.
use foundry_capital_markets.Prelude.{
  ℕ, ◌≡◌, refl, none, some, [], ◌∷◌, ◌++◌, length, any, keep, Str, codes,
}
use foundry_capital_markets.Prelude.Int.{pos, negsuc, ◌+ℤ◌, ◌*ℤ◌}
use foundry_capital_markets.Diagram.Metrics.{helvetica}
use foundry_capital_markets.Diagram.Geometry.{div_ℤ, round, px, straight}
use foundry_capital_markets.Diagram.Scene.{
  txt, arr, ElementId, same_prefix, same_id, rectangle, arrow_element, Element, Scene, empty_scene,
  by_id, touch, push_bound, fresh, rounded, base,
}
use foundry_capital_markets.Diagram.Shapes.{
  Placed, BoxSpec, push_own, box_height, title_fields, box_frame, titled, box,
}
use foundry_capital_markets.Diagram.Arrows.{ArrowOpts, arrow_fields, bound, arrow}
use foundry_capital_markets.Diagram.Checks.{
  has, container_errors, check_container, binding_errors, check_bindings, is_entry, listed,
  listing_errors, check_listed, check_bound, reference_errors,
}
use foundry_capital_markets.Diagram.Lookup.{Has}
use foundry_capital_markets.Diagram.Overlap.{
  right_of, bottom_of, overlaps, contains, rects, holds_one, containers, is_container, leaves,
  overlapping, overlap_errors,
}
use foundry_capital_markets.Diagram.Passing.{
  Drawn, blank, with_box, with_arrow, reference_errors-Drawn,
}

runner : Unit {0}
unfolding box titled fresh base push_own push_bound by_id touch same_id same_prefix arrow bound
    arrow_fields reference_errors
runner = tt

rounding : round (pos 30) ≡ pos 24
unfolding round div_ℤ ◌+ℤ◌ ◌*ℤ◌
rounding = refl

-- A negative half is rounded up.
rounding_negative : round (negsuc 11) ≡ pos 0
unfolding round div_ℤ ◌+ℤ◌ ◌*ℤ◌
rounding_negative = refl

abbrev spec_at : ℕ → Str → BoxSpec
spec_at x title = record {
  x = px x;
  y = px 0;
  width = px 240;
  height = some (px 80);
  title = title;
  body = [];
  title_size = 20;
  body_size = 16;
  title_family = helvetica;
  body_family = helvetica;
}

abbrev two_boxes : Scene
two_boxes = (box (spec_at 400 (codes "B")) (box (spec_at 0 (codes "A")) empty_scene).0).0

abbrev plain_arrow : ArrowOpts
plain_arrow = record {
  sides = none;
  gap = px 8;
  elbow = straight;
  detour = px 70;
  label = [];
  label_size = 16;
  label_width = px 240;
  label_dx = px 0;
  label_dy = px 0;
  label_at = none;
}

abbrev left_box : Placed
left_box = (box (spec_at 0 (codes "A")) empty_scene).1

abbrev right_box : Placed
right_box = (box (spec_at 400 (codes "B")) (box (spec_at 0 (codes "A")) empty_scene).0).1

abbrev nothing : Element
nothing = record {
  id = record { prefix = txt; number = 0 };
  kind = rectangle;
  frame = record { left = px 0; top = px 0; width = px 0; height = px 0 };
  bound_elements = [];
}

abbrev found : ElementId → Element
found i = elim (by_id two_boxes.elements i) [ some e ↦ e | none ↦ nothing ]

left_there : Has two_boxes.elements left_box.id
unfolding runner
left_there = (found left_box.id, refl)

right_there : Has two_boxes.elements right_box.id
unfolding runner
right_there = (found right_box.id, refl)

abbrev joined : Scene
joined = elim (arrow left_box right_box plain_arrow two_boxes) [ some t ↦ t | none ↦ empty_scene ]

joins : arrow left_box right_box plain_arrow two_boxes ≡ some joined
unfolding runner
joins = refl

-- Two rectangles with their titles, and the arrow.
five_elements : length joined.elements ≡ 5
unfolding runner
five_elements = refl

boxes-Drawn : Drawn two_boxes
boxes-Drawn = with_box (spec_at 400 (codes "B")) (with_box (spec_at 0 (codes "A")) blank)

reference_errors-Drawn_example : reference_errors joined.elements ≡ []
reference_errors-Drawn_example =
    reference_errors-Drawn joined
      (with_arrow left_box right_box plain_arrow joined boxes-Drawn left_there right_there joins)

-- An arrow that nothing lists is an error at both ends, and one without points is an error too.
abbrev stray : Element
stray = record {
  id = record { prefix = arr; number = 9 };
  kind =
      arrow_element
        (record { points = []; start_binding = left_box.id; end_binding = right_box.id });
  frame = nothing.frame;
  bound_elements = [];
}

stray_found : length (reference_errors (two_boxes.elements ++ stray ∷ [])) ≡ 3
unfolding runner has listed any is_entry container_errors binding_errors listing_errors check_bound
    check_container check_bindings check_listed title_fields
stray_found = refl

apart : overlap_errors two_boxes.elements ≡ []
unfolding runner overlap_errors overlapping leaves holds_one containers is_container rects overlaps
    contains right_of bottom_of keep any rounded round div_ℤ box_frame box_height ◌+ℤ◌ ◌*ℤ◌
apart = refl
