-- ===== src/Diagram/Pictures/Stacks.antt =====
-- Columns of boxes, for any contents.
use foundry_capital_markets.Prelude.{◌≡◌, Option, some, List, [], ◌∷◌}
use foundry_capital_markets.Prelude.Int.{ℤ, ◌+ℤ◌, ◌≤ℤ◌}
use foundry_capital_markets.Diagram.Scene.{Scene}
use foundry_capital_markets.Diagram.Shapes.{Placed}
use foundry_capital_markets.Diagram.Pictures.{Item, measure_item}

-- Boxes below each other, from `y` on; with where the next one would begin.
abbrev pub Stack : ℤ → ℤ → ℤ → ℤ → ℤ → List Item → List Placed → Type 0
Stack x width gap y end [] [] = end ≡ y
Stack x width gap y end [] (p ∷ ps) = ⊥
Stack x width gap y end (i ∷ is) [] = ⊥
Stack x width gap y end (i ∷ is) (p ∷ ps) =
    (p.frame.left ≡ x)
    × (p.frame.top ≡ y)
    × (p.frame.width ≡ width)
    × (measure_item i width ≤ℤ p.frame.height)
    × Stack x width gap (p.frame.top +ℤ p.frame.height +ℤ gap) end is ps

-- The height that is given, if any, is enough.
abbrev pub Suffices : ℤ → (Item → Option ℤ) → Item → Type 0
Suffices width height i = (h : ℤ) → height i ≡ some h → measure_item i width ≤ℤ h
