-- ===== src/Diagram/Bounds.antt =====
-- `bounds` of the class Scene in scripts/diagrams/diagram-kit.mjs, and of render-svg.mjs.
use foundry_capital_markets.Prelude.{Option, none, some, List, [], ◌∷◌}
use foundry_capital_markets.Prelude.Int.{ℤ, ◌+ℤ◌, max_ℤ, min_ℤ}
use foundry_capital_markets.Diagram.Geometry.{Point, Frame}
use foundry_capital_markets.Diagram.Scene.{rectangle, text_element, arrow_element, Element}

pub record Box : Type 0 where
  pub min_x : ℤ
  pub min_y : ℤ
  pub max_x : ℤ
  pub max_y : ℤ

-- `Math.min` and `Math.max` of each edge.
unfoldable pub union : Box → Box → Box
unfolding min_ℤ max_ℤ
union b c = record {
  min_x = min_ℤ b.min_x c.min_x;
  min_y = min_ℤ b.min_y c.min_y;
  max_x = max_ℤ b.max_x c.max_x;
  max_y = max_ℤ b.max_y c.max_y;
}

-- No box stands for the edges at infinity.
unfoldable pub join_box : Option Box → Option Box → Option Box
unfolding union
join_box none c = c
join_box (some b) none = some b
join_box (some b) (some c) = some (union b c)

-- A point of an arrow, which is relative to the arrow's corner.
unfoldable pub point_box : Frame → Point → Box
unfolding ◌+ℤ◌
point_box f p = record {
  min_x = f.left +ℤ p.x;
  min_y = f.top +ℤ p.y;
  max_x = f.left +ℤ p.x;
  max_y = f.top +ℤ p.y;
}

unfoldable pub points_box : Frame → List Point → Option Box
unfolding join_box point_box
points_box f [] = none
points_box f (p ∷ ps) = join_box (some (point_box f p)) (points_box f ps)

unfoldable pub frame_box : Frame → Box
unfolding ◌+ℤ◌
frame_box f = record {
  min_x = f.left;
  min_y = f.top;
  max_x = f.left +ℤ f.width;
  max_y = f.top +ℤ f.height;
}

-- An arrow is bounded by its points, any other element by its frame.
unfoldable pub element_box : Element → Option Box
unfolding points_box frame_box
element_box e = elim e.kind [
  | arrow_element a ↦ points_box e.frame a.points
  | rectangle ↦ some (frame_box e.frame)
  | text_element t ↦ some (frame_box e.frame)
]

-- The loop over the elements.
unfoldable pub bounds_from : Option Box → List Element → Option Box
unfolding join_box element_box
bounds_from acc [] = acc
bounds_from acc (e ∷ es) = bounds_from (join_box acc (element_box e)) es

unfoldable pub bounds : List Element → Option Box
unfolding bounds_from
bounds els = bounds_from none els
