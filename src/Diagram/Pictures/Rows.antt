-- ===== src/Diagram/Pictures/Rows.antt =====
-- Rows of boxes, for any contents.
use foundry_capital_markets.Prelude.{
  ℕ, ◌+◌, ◌≤◌, ◌<◌, ◌≡◌, refl, ◌∙◌, ◌⊎◌, inl, inr, true, false, Option, none, some, List, [], ◌∷◌,
  arith, length, ltb, All,
}
use foundry_capital_markets.Prelude.Int.{ℤ, pos, ◌+ℤ◌, ◌*ℤ◌, ◌≤ℤ◌, max_ℤ, le-max_ℤ}
use foundry_capital_markets.Diagram.Scene.{Scene}
use foundry_capital_markets.Diagram.Shapes.{Placed, box_height, box_frame, BoxSpec, box}
use foundry_capital_markets.Diagram.Passing.{Drawn, with_box}
use foundry_capital_markets.Diagram.Geometry.{column_x}
use foundry_capital_markets.Diagram.Pictures.Shown.{Shows, Keeps, Keeps-trans, box-Keeps, box-Shows}
use foundry_capital_markets.Diagram.Pictures.{
  Draw, pure, ◌>>=◌, >>=-eq, Item, box_spec, measure_item, draw_box, Ruler, at_x, first_width,
  row_height, place_items, place_row,
}

-- A box of a row, at the column `n` of the ruler, which holds what its content needs.
pub record InRow (ruler : Ruler) (y height : ℤ) (n : ℕ) (i : Item) (p : Placed) : Type 0 where
  pub left : p.frame.left ≡ ruler.x +ℤ pos n *ℤ (ruler.width +ℤ ruler.gap)
  pub top : p.frame.top ≡ y
  pub width : p.frame.width ≡ ruler.width
  pub tall : p.frame.height ≡ height
  pub holds : measure_item i ruler.width ≤ℤ height

abbrev pub Row : Ruler → ℤ → ℤ → ℕ → List Item → List Placed → Type 0
Row ruler y height n [] [] = Unit
Row ruler y height n [] (p ∷ ps) = ⊥
Row ruler y height n (i ∷ is) [] = ⊥
Row ruler y height n (i ∷ is) (p ∷ ps) =
    InRow ruler y height n i p × Row ruler y height (n + 1) is ps

-- What a script leaves behind: its boxes stand in the scene, those from before still do, and the scene
-- is one of the kit's.
pub record Leaves (s t : Scene) (ps : List Placed) : Type 0 where
  pub boxes : All (Shows t) ps
  pub keeps : Keeps s t
  pub kit : Drawn t

pub draw_box-eq :
    (i : Item) (x y width : ℤ) (o : Option ℤ) (s : Scene)
    → let spec = box_spec i x y width o in
      draw_box i x y width o s ≡ some ((box spec s).1, (box spec s).0)
unfolding draw_box
draw_box-eq i x y width o s = refl

-- Each item measures no more than the shared height.
row_height-le :
    (items : List Item) (width : ℤ)
    → All (λ i. measure_item i width ≤ℤ row_height items width) items
unfolding row_height
row_height-le [] width = tt
row_height-le (i ∷ is) width =
    let (a, b) = le-max_ℤ (measure_item i width) (row_height is width) in
    (a, weaken is (row_height-le is width) b)
  where
    weaken :
        (js : List Item)
        → All (λ j. measure_item j width ≤ℤ row_height is width) js
        → row_height is width ≤ℤ max_ℤ (measure_item i width) (row_height is width)
        → All (λ j. measure_item j width ≤ℤ max_ℤ (measure_item i width) (row_height is width)) js
    weaken [] h b = tt
    weaken (j ∷ js) (h, hs) b = (omega (arith, h, b), weaken js hs b)

at_x-eq :
    (ruler : Ruler) (n : ℕ) (s : Scene)
    → n < ruler.count
    → at_x ruler n s ≡ some (ruler.x +ℤ pos n *ℤ (ruler.width +ℤ ruler.gap), s)
unfolding at_x column_x
at_x-eq ruler n s h = let e : ltb n ruler.count ≡ true = ground (arith, h) in rw (e, at_x) refl

at_x-none : (ruler : Ruler) (n : ℕ) (s : Scene) → ruler.count ≤ n → at_x ruler n s ≡ none
unfolding at_x
at_x-none ruler n s h = let e : ltb n ruler.count ≡ false = ground (arith, h) in rw (e, at_x) refl

first_width-eq :
    (ruler : Ruler) (s : Scene) → 0 < ruler.count → first_width ruler s ≡ some (ruler.width, s)
unfolding first_width
first_width-eq ruler s h =
    let e : ltb 0 ruler.count ≡ true = ground (arith, h) in rw (e, first_width) refl

first_width-none : (ruler : Ruler) (s : Scene) → ruler.count ≡ 0 → first_width ruler s ≡ none
unfolding first_width
first_width-none ruler s h = rw (h, first_width) refl

-- A box is drawn, and more after it.
pub Leaves-cons :
    (spec : BoxSpec) {s t : Scene} {ps : List Placed}
    → Leaves (box spec s).0 t ps
    → Leaves s t ((box spec s).1 ∷ ps)
Leaves-cons spec {s} h = record {
  boxes = (h.keeps (box spec s).1 (box-Shows spec s), h.boxes);
  keeps = Keeps-trans (box-Keeps spec s) h.keeps;
  kit = h.kit;
}

pub Leaves-nil : (s : Scene) → Drawn s → Leaves s s []
Leaves-nil s d = record { boxes = tt; keeps = λ p h. h; kit = d }

place_items-Row :
    (ruler : Ruler) (y height : ℤ) (n : ℕ) (items : List Item) (s : Scene)
    → n + length items ≤ ruler.count
    → All (λ i. measure_item i ruler.width ≤ℤ height) items
    → Drawn s
    → (ps : List Placed) × (t : Scene) × (place_items ruler y height n items s ≡ some (ps, t))
      × Row ruler y height n items ps
      × Leaves s t ps
unfolding place_items draw_box box box_frame box_height
place_items-Row ruler y height n [] s room h d = ([], s, refl, tt, Leaves-nil s d)
place_items-Row ruler y height n (i ∷ is) s room (fits, h) d =
    let x = ruler.x +ℤ pos n *ℤ (ruler.width +ℤ ruler.gap) in
    let spec = box_spec i x y ruler.width (some height) in
    let (ps, u, es, row, more) =
      place_items-Row ruler y height (n + 1) is (box spec s).0 (ground (arith, room)) h
        (with_box spec d) in
    let here : InRow ruler y height n i (box spec s).1 = record {
      left = refl;
      top = refl;
      width = refl;
      tall = refl;
      holds = fits;
    } in
    (
      (box spec s).1 ∷ ps,
      u,
      >>=-eq (at_x ruler n) _ s (at_x-eq ruler n s (ground (arith, room)))
          ∙ >>=-eq (draw_box i x y ruler.width (some height))
              (λ p. place_items ruler y height (n + 1) is >>= (λ more. pure (p ∷ more))) s
              (draw_box-eq i x y ruler.width (some height) s)
          ∙ >>=-eq (place_items ruler y height (n + 1) is) (λ more. pure ((box spec s).1 ∷ more))
              (box spec s).0 es,
      (here, row),
      Leaves-cons spec more,
    )

-- `placeRow` draws a box for each item if the ruler has a column and no fewer columns than there are
-- items, on a scene of the kit's. The boxes are rectangles of the scene then; they are in the columns
-- of the ruler from the first on, at one height, which is enough for each item. What boxes the scene
-- held before are still there, and it is one of the kit's again.
pub place_row-Row :
    (ruler : Ruler) (y : ℤ) (items : List Item) (s : Scene)
    → 0 < ruler.count
    → length items ≤ ruler.count
    → Drawn s
    → (ps : List Placed) × (t : Scene) × (place_row ruler y items s ≡ some (ps, t))
      × Row ruler y (row_height items ruler.width) 0 items ps
      × Leaves s t ps
unfolding place_row
place_row-Row ruler y items s some_column room d =
    let (ps, t, e, row, left) =
      place_items-Row ruler y (row_height items ruler.width) 0 items s (omega (arith, room))
        (row_height-le items ruler.width) d in
    (ps, t, >>=-eq (first_width ruler) _ s (first_width-eq ruler s some_column) ∙ e, row, left)

>>=-none :
    {A B : Type 0} (m : Draw A) (f : A → Draw B) (s : Scene) → m s ≡ none → (m >>= f) s ≡ none
unfolding ◌>>=◌
>>=-none m f s h = rw (h, ◌>>=◌) refl

place_items-none :
    (ruler : Ruler) (y height : ℤ) (n : ℕ) (items : List Item) (s : Scene)
    → n ≤ ruler.count
    → ruler.count < n + length items
    → place_items ruler y height n items s ≡ none
unfolding place_items
place_items-none ruler y height n [] s h few = absurd (ground (arith, h, few))
place_items-none ruler y height n (i ∷ is) s h few = elim (le_cases n ruler.count h) [
  | inr same ↦ >>=-none (at_x ruler n) _ s (at_x-none ruler n s (omega (arith, same)))
  | inl less ↦
      let x = ruler.x +ℤ pos n *ℤ (ruler.width +ℤ ruler.gap) in
      let spec = box_spec i x y ruler.width (some height) in
      >>=-eq (at_x ruler n) _ s (at_x-eq ruler n s less)
      ∙ >>=-eq (draw_box i x y ruler.width (some height))
          (λ p. place_items ruler y height (n + 1) is >>= (λ more. pure (p ∷ more))) s
          (draw_box-eq i x y ruler.width (some height) s)
      ∙ >>=-none (place_items ruler y height (n + 1) is) (λ more. pure ((box spec s).1 ∷ more))
          (box spec s).0
          (place_items-none ruler y height (n + 1) is (box spec s).0 (omega (arith, less))
            (ground (arith, few)))
]
  where
    le_cases : (a b : ℕ) → a ≤ b → (a < b) ⊎ (a ≡ b)
    le_cases a b h = ground arith

-- `placeRow` throws, whatever the scene, if the ruler has no column or fewer columns than there are
-- items.
pub place_row-eq-none :
    (ruler : Ruler) (y : ℤ) (items : List Item) (s : Scene)
    → (ruler.count ≡ 0) ⊎ (ruler.count < length items)
    → place_row ruler y items s ≡ none
unfolding place_row
place_row-eq-none ruler y items s (inl empty) =
    >>=-none (first_width ruler) _ s (first_width-none ruler s empty)
place_row-eq-none ruler y items s (inr few) = elim (positive ruler.count) [
  | inl empty ↦ >>=-none (first_width ruler) _ s (first_width-none ruler s empty)
  | inr some_column ↦
      >>=-eq (first_width ruler) (λ w. place_items ruler y (row_height items w) 0 items) s
        (first_width-eq ruler s some_column)
      ∙ place_items-none ruler y (row_height items ruler.width) 0 items s (omega arith)
          (omega (arith, few))
]
  where
    positive : (a : ℕ) → (a ≡ 0) ⊎ (0 < a)
    positive a = ground arith
