-- ===== src/Diagram/Svg/Canvas.antt =====
-- The frame that `renderSvg` of scripts/diagrams/render-svg.mjs gives its picture, and what it shows.
use mathlib.Core.Path.{subst}
use foundry_capital_markets.Prelude.{
  ◌≡◌, sym, ap, ◌∙◌, ◌↔◌, inl, inr, Option, none, some, List, [], ◌∷◌, arith, Option-cases,
  some-inj, All, In, All-In,
}
use foundry_capital_markets.Prelude.Int.{
  ℤ, ◌+ℤ◌, ◌-ℤ◌, ◌≤ℤ◌, int_laws, le-max_ℤ, min_ℤ-le, max_ℤ-le, le-min_ℤ,
}
use foundry_capital_markets.Diagram.Geometry.{px, Frame}
use foundry_capital_markets.Diagram.Scene.{Element}
use foundry_capital_markets.Diagram.Bounds.{Box, union, join_box, element_box, bounds_from, bounds}

-- `PADDING`.
abbrev pub padding : ℤ
padding = px 40

-- `x`, `y`, `width` and `height`.
unfoldable pub viewport : Box → Frame
unfolding ◌+ℤ◌ ◌-ℤ◌
viewport b = record {
  left = b.min_x -ℤ padding;
  top = b.min_y -ℤ padding;
  width = b.max_x -ℤ b.min_x +ℤ px 80;
  height = b.max_y -ℤ b.min_y +ℤ px 80;
}

abbrev viewport_of : Option Box → Option Frame
viewport_of none = none
viewport_of (some b) = some (viewport b)

-- The `viewBox`; a scene without elements is an error.
unfoldable pub canvas : List Element → Option Frame
unfolding bounds viewport
canvas els = viewport_of (bounds els)

-- A box lies within another.
pub record Within (b c : Box) : Type 0 where
  pub at_left : c.min_x ≤ℤ b.min_x
  pub at_top : c.min_y ≤ℤ b.min_y
  pub at_right : b.max_x ≤ℤ c.max_x
  pub at_bottom : b.max_y ≤ℤ c.max_y

Within-trans : {a b c : Box} → Within a b → Within b c → Within a c
Within-trans h k = ground arith

Within-refl : (b : Box) → Within b b
Within-refl b = ground arith

union-Within : (b c : Box) → Within b (union b c) × Within c (union b c)
unfolding union
union-Within b c =
    let (l1, l2) = min_ℤ-le b.min_x c.min_x in
    let (t1, t2) = min_ℤ-le b.min_y c.min_y in
    let (r1, r2) = le-max_ℤ b.max_x c.max_x in
    let (d1, d2) = le-max_ℤ b.max_y c.max_y in
    (
      record { at_left = l1; at_top = t1; at_right = r1; at_bottom = d1 },
      record { at_left = l2; at_top = t2; at_right = r2; at_bottom = d2 },
    )

union-Within-least : (b c m : Box) → Within b m → Within c m → Within (union b c) m
unfolding union
union-Within-least b c m h k = record {
  at_left = le-min_ℤ b.min_x c.min_x m.min_x h.at_left k.at_left;
  at_top = le-min_ℤ b.min_y c.min_y m.min_y h.at_top k.at_top;
  at_right = max_ℤ-le b.max_x c.max_x m.max_x h.at_right k.at_right;
  at_bottom = max_ℤ-le b.max_y c.max_y m.max_y h.at_bottom k.at_bottom;
}

-- A box, if there is one, lies within another.
abbrev pub AllWithin : Option Box → Box → Type 0
AllWithin none c = Unit
AllWithin (some b) c = Within b c

join_box-AllWithin :
    (acc o : Option Box) (m : Box)
    → AllWithin (join_box acc o) m ↔ (AllWithin acc m × AllWithin o m)
unfolding join_box
join_box-AllWithin none o m = ((λ h. (tt, h)), λ h. h.1)
join_box-AllWithin (some a) none m = ((λ h. (h, tt)), λ h. h.0)
join_box-AllWithin (some a) (some b) m =
    let (l, r) = union-Within a b in
    ((λ h. (Within-trans l h, Within-trans r h)), λ h. union-Within-least a b m h.0 h.1)

bounds_from-AllWithin :
    (acc : Option Box) (es : List Element) (m : Box)
    → AllWithin (bounds_from acc es) m
      ↔ (AllWithin acc m × All (λ e. AllWithin (element_box e) m) es)
unfolding bounds_from
bounds_from-AllWithin acc [] m = ((λ h. (h, tt)), λ h. h.0)
bounds_from-AllWithin acc (e ∷ es) m =
    let (to, from) = bounds_from-AllWithin (join_box acc (element_box e)) es m in
    let (apart, together) = join_box-AllWithin acc (element_box e) m in
    (
      (λ h. let (a, rest) = to h in ((apart a).0, ((apart a).1, rest))),
      λ h. from (together (h.0, h.1.0), h.1.1),
    )

-- A box holds the scene's bounds exactly when it holds every element: the bounds are the smallest box
-- that does, and each point of an arrow counts.
pub bounds-AllWithin :
    (els : List Element) (m : Box)
    → AllWithin (bounds els) m ↔ All (λ e. AllWithin (element_box e) m) els
unfolding bounds
bounds-AllWithin els m =
    let (to, from) = bounds_from-AllWithin none els m in ((λ h. (to h).1), λ h. from (tt, h))

-- A box lies within a frame, at least the padding from each edge.
pub record Margin (f : Frame) (b : Box) : Type 0 where
  pub from_left : f.left +ℤ padding ≤ℤ b.min_x
  pub from_top : f.top +ℤ padding ≤ℤ b.min_y
  pub from_right : b.max_x +ℤ padding ≤ℤ f.left +ℤ f.width
  pub from_bottom : b.max_y +ℤ padding ≤ℤ f.top +ℤ f.height

sub_add_le : (a c p : ℤ) → a ≤ℤ c → a -ℤ p +ℤ p ≤ℤ c
sub_add_le a c p h = omega int_laws

add-le-sub_add : (a b c : ℤ) → b ≤ℤ c → b +ℤ padding ≤ℤ a -ℤ padding +ℤ (c -ℤ a +ℤ px 80)
add-le-sub_add a b c h = omega int_laws

viewport-Margin : (b c : Box) → Within b c → Margin (viewport c) b
unfolding viewport
viewport-Margin b c w = record {
  from_left = sub_add_le c.min_x b.min_x padding w.at_left;
  from_top = sub_add_le c.min_y b.min_y padding w.at_top;
  from_right = add-le-sub_add c.min_x b.max_x c.max_x w.at_right;
  from_bottom = add-le-sub_add c.min_y b.max_y c.max_y w.at_bottom;
}

canvas-eq-some :
    (els : List Element) (f : Frame)
    → canvas els ≡ some f
    → (c : Box) × (bounds els ≡ some c) × (viewport c ≡ f)
unfolding canvas
canvas-eq-some els f e = elim (Option-cases (bounds els)) [
  | inl gone ↦ cc (ap viewport_of gone, e)
  | inr (c, there) ↦ (c, there, some-inj (sym (ap viewport_of there) ∙ e))
]

Within-bounds :
    (els : List Element) (c : Box) (e : Element) (b : Box)
    → bounds els ≡ some c
    → In e els
    → element_box e ≡ some b
    → Within b c
Within-bounds els c e b h m k =
    let all = (bounds-AllWithin els c).0 (rw h (Within-refl c)) in
    rw k at (All-In (λ x. AllWithin (element_box x) c) els e all m)

-- The picture shows every element whole, with the padding on each side: the frame of the `viewBox`
-- has each point of an arrow and each frame of a rectangle or a text 40 pixels or more within it.
pub canvas-Margin :
    (els : List Element) (f : Frame) (e : Element) (b : Box)
    → canvas els ≡ some f
    → In e els
    → element_box e ≡ some b
    → Margin f b
canvas-Margin els f e b h m k =
    let (c, bounded, same) = canvas-eq-some els f h in
    subst (λ g. Margin g b) same (viewport-Margin b c (Within-bounds els c e b bounded m k))
