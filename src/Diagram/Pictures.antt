-- ===== src/Diagram/Pictures.antt =====
-- scripts/diagrams/diagrams.mjs: what its builders share. The pictures are in the modules below.
--
-- A builder is a script that draws on a scene, in the kit's calls. Colours and strokes are left out,
-- as in the model of the kit, and so are the names and seeds of the scenes.
pub mod SourceMap
mod Tests
pub mod Shown
pub mod Rows
pub mod Stacks
pub mod Catalogue
pub mod Built
pub mod Valid
pub mod Rendered
pub mod Regenerate
pub mod AgentMap
pub mod RequestFlow
pub mod ScreenMap
pub mod Platform
use Prim.Native.String.{String}
use foundry_capital_markets.Prelude.{
  ℕ, zero, suc, ◌+◌, ◌/◌, ◌≡◌, refl, true, false, Option, none, some, List, [], ◌∷◌, take, ltb, Str,
  codes,
}
use foundry_capital_markets.Prelude.Int.{ℤ, pos, ◌+ℤ◌, ◌-ℤ◌, max_ℤ}
use foundry_capital_markets.Diagram.Metrics.{helvetica}
use foundry_capital_markets.Diagram.Geometry.{px, off, straight, column_x}
use foundry_capital_markets.Diagram.Scene.{Scene}
use foundry_capital_markets.Diagram.Shapes.{Placed, BoxSpec, measure, box, GroupSpec, group}
use foundry_capital_markets.Diagram.Arrows.{ArrowOpts, arrow, header, legend}

-- A script: it changes the scene, and throws where it is `none`.
abbrev pub Draw : Type 0 → Type 0
Draw A = Scene → Option (A × Scene)

abbrev pub pure : {A : Type 0} → A → Draw A
pure a s = some (a, s)

infixl 5 ◌>>=◌ ◌>>◌
unfoldable pub ◌>>=◌ : {A B : Type 0} → Draw A → (A → Draw B) → Draw B
◌>>=◌ m f s = elim (m s) [ none ↦ none | some (a, t) ↦ f a t ]

abbrev pub ◌>>◌ : {A B : Type 0} → Draw A → Draw B → Draw B
m >> k = m >>= λ _. k

pub >>=-eq :
    {A B : Type 0} (m : Draw A) (f : A → Draw B) {a : A} (s : Scene) {t : Scene}
    → m s ≡ some (a, t)
    → (m >>= f) s ≡ f a t
unfolding ◌>>=◌
>>=-eq m f s e = rw (e, ◌>>=◌) refl

-- The content of a box: its title and body, with how they are set.
pub record Item : Type 0 where
  pub title : Str
  pub body : Str
  pub title_size : ℕ
  pub body_size : ℕ
  pub body_family : ℕ

-- With the sizes and the font that `box` and `measure` take where none are given.
abbrev pub item : String → String → Item
item title body = record {
  title = codes title;
  body = codes body;
  title_size = 20;
  body_size = 16;
  body_family = helvetica;
}

abbrev pub box_spec : Item → ℤ → ℤ → ℤ → Option ℤ → BoxSpec
box_spec i x y width height = record {
  x = x;
  y = y;
  width = width;
  height = height;
  title = i.title;
  body = i.body;
  title_size = i.title_size;
  body_size = i.body_size;
  title_family = helvetica;
  body_family = i.body_family;
}

-- `Scene.measure` of the content, at a width.
unfoldable pub measure_item : Item → ℤ → ℤ
unfolding measure
measure_item i width = measure (box_spec i (pos 0) (pos 0) width none)

abbrev pub group_spec : ℤ → ℤ → ℤ → ℤ → String → String → GroupSpec
group_spec x y width height label sublabel = record {
  frame = record { left = x; top = y; width = width; height = height };
  label = codes label;
  label_size = 20;
  sublabel = codes sublabel;
  sublabel_size = 16;
}

-- The options of an arrow that is given none.
abbrev pub no_options : ArrowOpts
no_options = record {
  sides = none;
  gap = px 8;
  elbow = straight;
  detour = px 70;
  label = [];
  label_size = 16;
  label_width = px 240;
  label_dx = pos 0;
  label_dy = pos 0;
  label_at = none;
}

abbrev pub minus_px : ℕ → ℤ
minus_px n = pos 0 -ℤ px n

-- The methods of the scene, as scripts.
unfoldable pub draw_box : Item → ℤ → ℤ → ℤ → Option ℤ → Draw Placed
unfolding box
draw_box i x y width height s =
    let (t, placed) = box (box_spec i x y width height) s in some (placed, t)

unfoldable pub draw_group : GroupSpec → Draw Placed
unfolding group
draw_group spec s = let (t, placed) = group spec s in some (placed, t)

unfoldable pub draw_arrow : Placed → Placed → ArrowOpts → Draw (Unit {0})
unfolding arrow
draw_arrow from to opts s = elim (arrow from to opts s) [ none ↦ none | some t ↦ some (tt, t) ]

unfoldable pub draw_header : ℤ → ℤ → ℤ → String → String → Draw (Unit {0})
unfolding header
draw_header x y width title subtitle s =
    some (tt, header x y width (codes title) (codes subtitle) s)

unfoldable pub draw_legend : ℤ → ℤ → ℤ → List Str → Draw (Unit {0})
unfolding legend
draw_legend x y width items s =
    some (tt, (legend x y width (codes "Legend — what the colours mean") items s).0)

-- What `columns` returns, with what its `at` reads off it.
pub record Ruler : Type 0 where
  pub x : ℤ
  pub count : ℕ
  pub width : ℤ
  pub gap : ℤ

abbrev pub columns : ℤ → ℕ → ℤ → ℤ → Ruler
columns x count width gap = record { x = x; count = count; width = width; gap = gap }

-- `ruler.at(i).x`; beyond the last column `at` gives `undefined`, and reading off it throws.
unfoldable pub at_x : Ruler → ℕ → Draw ℤ
unfolding column_x
at_x ruler i s = elim (ltb i ruler.count) [
  | true ↦ some (column_x ruler.x ruler.width ruler.gap i, s)
  | false ↦ none
]

-- `ruler.at(0).width`, which throws on a ruler without a column.
unfoldable pub first_width : Ruler → Draw ℤ
first_width ruler s = elim (ltb 0 ruler.count) [ true ↦ some (ruler.width, s) | false ↦ none ]

-- `rowHeight`. Each item is 64 pixels high or more, so that the maximum may begin at 0.
unfoldable pub row_height : List Item → ℤ → ℤ
unfolding max_ℤ measure_item
row_height [] width = pos 0
row_height (i ∷ is) width = max_ℤ (measure_item i width) (row_height is width)

-- The boxes of a row, from the column `n` on: the body of the `map` over the items.
unfoldable pub place_items : Ruler → ℤ → ℤ → ℕ → List Item → Draw (List Placed)
unfolding ◌>>=◌ at_x
place_items ruler y height n [] = pure []
place_items ruler y height n (i ∷ is) = do
  x ← at_x ruler n
  placed ← draw_box i x y ruler.width (some height)
  more ← place_items ruler y height (n + 1) is
  pure (placed ∷ more)

-- `placeRow`.
unfoldable pub place_row : Ruler → ℤ → List Item → Draw (List Placed)
unfolding ◌>>=◌ first_width place_items row_height
place_row ruler y items = do w ← first_width ruler; place_items ruler y (row_height items w) 0 items

-- `boxes[n]`; without such a box the call that is given it throws.
unfoldable pub nth : List Placed → ℕ → Draw Placed
nth [] n s = none
nth (p ∷ ps) zero s = some (p, s)
nth (p ∷ ps) (suc n) s = nth ps n s

-- `reduce((a, b) => a + b + gap, 0)`.
unfoldable pub stacked : ℤ → List ℤ → ℤ
unfolding ◌+ℤ◌
stacked gap [] = pos 0
stacked gap (h ∷ hs) = h +ℤ gap +ℤ stacked gap hs

-- The texts of `LEGEND_PRIVATE` and the entries behind it.
abbrev pub legend_private : Str
legend_private = codes "Inside the VNet / private endpoint only. No public data-plane endpoint."

abbrev pub legend_public : Str
legend_public = codes "Public or refusal / denial. The single public surface, or a governed \"no\"."

abbrev pub legend_human : Str
legend_human = codes "Human-in-the-loop. A person, holding a distinct identity, decides."

abbrev pub legend_preview : Str
legend_preview = codes "Preview Azure capability (azapi, preview API version)."

abbrev pub legend_chokepoint : Str
legend_chokepoint = codes "Governed chokepoint / deterministic code the exchange depends on."

abbrev pub legend_absent : Str
legend_absent = codes "Described in docs but ABSENT from infrastructure/*.tf and apps/*.tf."

-- A column of boxes, of which each begins a gap below the one before it; with where the next would.
unfoldable pub place_stack : ℤ → ℤ → ℤ → ℤ → (Item → Option ℤ) → List Item → Draw (List Placed × ℤ)
unfolding ◌>>=◌ ◌+ℤ◌
place_stack x width gap y height [] = pure ([], y)
place_stack x width gap y height (i ∷ is) = do
  placed ← draw_box i x y width (height i)
  (more, end) ← place_stack x width gap (placed.frame.top +ℤ placed.frame.height +ℤ gap) height is
  pure (placed ∷ more, end)
