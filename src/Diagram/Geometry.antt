-- ===== src/Diagram/Geometry.antt =====
-- Coordinates, boxes and arrow routes of scripts/diagrams/diagram-kit.mjs, in grains.
use foundry_capital_markets.Prelude.{
  ℕ, ◌+◌, ◌*◌, ◌/◌, Bool, true, false, List, [], ◌∷◌, leb, if◌then◌else◌,
}
use foundry_capital_markets.Prelude.Int.{
  ℤ, pos, negsuc, pos_part, neg_part, ◌+ℤ◌, ◌-ℤ◌, ◌*ℤ◌, leb_ℤ, half, max_ℤ, min_ℤ,
}
use foundry_capital_markets.Diagram.Metrics.{grains, cent}

-- The floor of a quotient.
unfoldable pub div_ℤ : ℤ → ℕ → ℤ
div_ℤ (pos n) k = pos (n / k)
div_ℤ (negsuc n) k = negsuc (n / k)

-- `round`: to hundredths of a pixel, a half up.
unfoldable pub round : ℤ → ℤ
unfolding div_ℤ ◌+ℤ◌ ◌*ℤ◌
round n = div_ℤ (n +ℤ pos (cent / 2)) cent *ℤ pos cent

-- Whole pixels.
abbrev pub px : ℕ → ℤ
px n = pos (n * grains)

pub record Point : Type 0 where
  pub x : ℤ
  pub y : ℤ

-- A rectangle, with its upper left corner.
pub record Frame : Type 0 where
  pub left : ℤ
  pub top : ℤ
  pub width : ℤ
  pub height : ℤ

pub data Side : Type 0 where
  left_side : Side
  right_side : Side
  top_side : Side
  bottom_side : Side

unfoldable pub same_side : Side → Side → Bool
same_side left_side left_side = true
same_side right_side right_side = true
same_side top_side top_side = true
same_side bottom_side bottom_side = true
same_side _ _ = false

-- `cx` and `cy` of a box.
unfoldable pub centre : Frame → Point
unfolding half ◌+ℤ◌
centre b = record { x = b.left +ℤ half b.width; y = b.top +ℤ half b.height }

unfoldable pub anchor : Frame → Side → Point
unfolding half ◌+ℤ◌
anchor b left_side = record { x = b.left; y = b.top +ℤ half b.height }
anchor b right_side = record { x = b.left +ℤ b.width; y = b.top +ℤ half b.height }
anchor b top_side = record { x = b.left +ℤ half b.width; y = b.top }
anchor b bottom_side = record { x = b.left +ℤ half b.width; y = b.top +ℤ b.height }

abbrev pub abs : ℤ → ℕ
abs z = pos_part z + neg_part z

unfoldable pub auto_sides : Frame → Frame → Side × Side
unfolding centre ◌-ℤ◌
auto_sides a b =
    let dx = (centre b).x -ℤ (centre a).x in
    let dy = (centre b).y -ℤ (centre a).y in
    if leb (abs dy) (abs dx)
    then if leb_ℤ (pos 0) dx then (right_side, left_side) else (left_side, right_side)
    else if leb_ℤ (pos 0) dy
    then (bottom_side, top_side)
    else (top_side, bottom_side)

-- `off`: a point moved away from its side.
unfoldable pub off : Point → Side → ℤ → Point
unfolding ◌+ℤ◌ ◌-ℤ◌
off p left_side d = record { x = p.x -ℤ d; y = p.y }
off p right_side d = record { x = p.x +ℤ d; y = p.y }
off p top_side d = record { x = p.x; y = p.y -ℤ d }
off p bottom_side d = record { x = p.x; y = p.y +ℤ d }

-- One right angle on the way, along the horizontal or the vertical first.
pub data Elbow : Type 0 where
  straight : Elbow
  horizontal_first : Elbow
  vertical_first : Elbow

abbrev at : ℤ → ℤ → Point
at x y = record { x = x; y = y }

-- How far a connection of equal sides goes out: `dir * detour`.
unfoldable pub reach : Side → ℤ → ℤ
unfolding ◌-ℤ◌
reach left_side detour = pos 0 -ℤ detour
reach top_side detour = pos 0 -ℤ detour
reach right_side detour = detour
reach bottom_side detour = detour

-- The points behind the first of a connection of equal sides, which ends `dx`, `dy` away.
unfoldable pub around : Side → ℤ → ℤ → ℤ → List Point
unfolding reach
around left_side detour dx dy =
    at (reach left_side detour) (pos 0) ∷ at (reach left_side detour) dy ∷ at dx dy ∷ []
around right_side detour dx dy =
    at (reach right_side detour) (pos 0) ∷ at (reach right_side detour) dy ∷ at dx dy ∷ []
around top_side detour dx dy =
    at (pos 0) (reach top_side detour) ∷ at dx (reach top_side detour) ∷ at dx dy ∷ []
around bottom_side detour dx dy =
    at (pos 0) (reach bottom_side detour) ∷ at dx (reach bottom_side detour) ∷ at dx dy ∷ []

unfoldable pub bend : Elbow → ℤ → ℤ → List Point
bend straight dx dy = at dx dy ∷ []
bend horizontal_first dx dy = at dx (pos 0) ∷ at dx dy ∷ []
bend vertical_first dx dy = at (pos 0) dy ∷ at dx dy ∷ []

-- `pts`, relative to the start.
unfoldable pub route : Side → Side → Elbow → ℤ → ℤ → ℤ → List Point
unfolding same_side around bend
route leaving arriving elbow detour dx dy =
    at (pos 0) (pos 0)
    ∷ (if same_side leaving arriving then around leaving detour dx dy else bend elbow dx dy)

unfoldable pub max_of : ℤ → List ℤ → ℤ
unfolding max_ℤ
max_of m [] = m
max_of m (z ∷ zs) = max_of (max_ℤ m z) zs

unfoldable pub min_of : ℤ → List ℤ → ℤ
unfolding min_ℤ
min_of m [] = m
min_of m (z ∷ zs) = min_of (min_ℤ m z) zs

-- `Math.max(...zs) - Math.min(...zs)`, of coordinates of which one is 0.
unfoldable pub extent : List ℤ → ℤ
unfolding max_of min_of ◌-ℤ◌
extent zs = max_of (pos 0) zs -ℤ min_of (pos 0) zs

unfoldable pub sum_ℤ : List ℤ → ℤ
unfolding ◌+ℤ◌
sum_ℤ [] = pos 0
sum_ℤ (z ∷ zs) = z +ℤ sum_ℤ zs

-- `columns`: the left edge of the column `i`, and the width of `n` columns.
unfoldable pub column_x : ℤ → ℤ → ℤ → ℕ → ℤ
unfolding ◌+ℤ◌ ◌*ℤ◌
column_x x width gap i = x +ℤ pos i *ℤ (width +ℤ gap)

unfoldable pub span_width : ℤ → ℤ → ℕ → ℤ
unfolding ◌+ℤ◌ ◌-ℤ◌ ◌*ℤ◌
span_width width gap n = pos n *ℤ width +ℤ (pos n -ℤ pos 1) *ℤ gap

-- `stack(...).next(height)`: the top of the row, and the cursor behind it.
unfoldable pub stack_next : ℤ → ℤ → ℤ → ℤ × ℤ
unfolding ◌+ℤ◌
stack_next gap cursor height = (cursor, cursor +ℤ (height +ℤ gap))
