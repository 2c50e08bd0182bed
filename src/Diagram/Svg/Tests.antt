-- ===== src/Diagram/Svg/Tests.antt =====
-- Escapes and frames of a small scene.
use foundry_capital_markets.Prelude.{◌≡◌, refl, inl, some, [], ◌∷◌, codes}
use foundry_capital_markets.Prelude.Int.{◌+ℤ◌, ◌-ℤ◌, max_ℤ, min_ℤ}
use foundry_capital_markets.Diagram.Geometry.{px, Frame}
use foundry_capital_markets.Diagram.Scene.{box_id, arr, rectangle, arrow_element, Element}
use foundry_capital_markets.Diagram.Bounds.{
  Box, union, join_box, point_box, points_box, frame_box, element_box, bounds_from, bounds,
}
use foundry_capital_markets.Diagram.Svg.{replace_char, escape_xml}
use foundry_capital_markets.Diagram.Svg.Escaping.{read_xml, read_xml-escape_xml}
use foundry_capital_markets.Diagram.Svg.Canvas.{viewport, canvas, Margin, canvas-Margin}

escaped : escape_xml (codes "a < b && c") ≡ codes "a &lt; b &amp;&amp; c"
unfolding escape_xml replace_char
escaped = refl

read_xml-escape_xml_example : read_xml 0 (escape_xml (codes "R&D <b>")) ≡ some (codes "R&D <b>")
read_xml-escape_xml_example = read_xml-escape_xml (codes "R&D <b>")

-- A rectangle and an arrow that begins below it.
abbrev card : Element
card = record {
  id = record { prefix = box_id; number = 1 };
  kind = rectangle;
  frame = record { left = px 10; top = px 20; width = px 100; height = px 50 };
  bound_elements = [];
}

abbrev line : Element
line = record {
  id = record { prefix = arr; number = 2 };
  kind = arrow_element (record {
    points = record { x = px 0; y = px 0 } ∷ record { x = px 30; y = px 40 } ∷ [];
    start_binding = card.id;
    end_binding = card.id;
  });
  frame = record { left = px 60; top = px 70; width = px 30; height = px 40 };
  bound_elements = [];
}

abbrev outline : Box
outline = record { min_x = px 10; min_y = px 20; max_x = px 110; max_y = px 110 }

abbrev picture : Frame
picture = record { left = px 10 -ℤ px 40; top = px 20 -ℤ px 40; width = px 180; height = px 170 }

outlined : bounds (card ∷ line ∷ []) ≡ some outline
unfolding bounds bounds_from join_box union element_box points_box point_box frame_box min_ℤ max_ℤ
    ◌+ℤ◌
outlined = refl

pictured : canvas (card ∷ line ∷ []) ≡ some picture
unfolding canvas viewport bounds bounds_from join_box union element_box points_box point_box
    frame_box min_ℤ max_ℤ ◌+ℤ◌ ◌-ℤ◌
pictured = refl

card_box : element_box card ≡ some (frame_box card.frame)
unfolding element_box
card_box = refl

canvas-Margin_example : Margin picture (frame_box card.frame)
canvas-Margin_example =
    canvas-Margin (card ∷ line ∷ []) picture card (frame_box card.frame) pictured (inl refl)
      card_box
