-- ===== src/Diagram/Drawing.antt =====
-- Boxes, groups, headers and legends keep what is linked linked.
use mathlib.Core.Path.{subst}
use foundry_capital_markets.Prelude.{
  ◌+◌, ◌≡◌, refl, ap, Bool, true, false, some, List, [], ◌∷◌, map, if◌then◌else◌, some-inj,
  is_empty, Str,
}
use foundry_capital_markets.Prelude.Int.{ℤ, ◌+ℤ◌}
use foundry_capital_markets.Diagram.Geometry.{px, Frame}
use foundry_capital_markets.Diagram.Scene.{
  txt, box_id, grp, swa, ElementId, BoundElement, bound_text, target, Kind, rectangle, text_element,
  Element, Scene, touch, fresh, base, text,
}
use foundry_capital_markets.Diagram.Shapes.{
  BoxSpec, push_own, title_fields, box_frame, title_frame, titled, body_spec, box, GroupSpec,
  label_spec, sublabel_spec, group,
}
use foundry_capital_markets.Diagram.Arrows.{
  title_spec, subtitle_spec, header, swatch, item_spec, legend_rows, legend_group, legend,
}
use foundry_capital_markets.Diagram.Lookup.{
  Has, Lists, Lists-pushed, push_bound-eq, Extends-trans, Extends-touch, Below-touch,
}
use foundry_capital_markets.Diagram.Links.{
  Refers, Good, All-touch, base-Extends, base-Below, base-Has, base-All, text-Good, rectangle-Good,
}

pub if-Good : (b : Bool) (s t : Scene) → Good s → Good t → Good (if b then s else t)
if-Good true s t g h = g
if-Good false s t g h = h

push_own-eq :
    (i : ElementId) (b : BoundElement) (s : Scene)
    → Has s.elements i
    → push_own i b s ≡ record s { elements = map (touch i b) s.elements }
unfolding push_own
push_own-eq i b s there = rw (push_own, push_bound-eq i b s.elements there) refl

-- A title is listed by the rectangle that was made just before it.
pushed-Good :
    (i : ElementId) (b : BoundElement) (k : Kind) (f : Frame) (s : Scene)
    → Good s
    → Has s.elements i
    → b ≡ bound_text (fresh txt s)
    → ((fs : List Element) → Lists fs i b → Refers fs (fresh txt s) k)
    → Good (push_own i b (base txt k f s))
pushed-Good i b k f s g there e r =
    let s1 = base txt k f s in
    let fs = map (touch i b) s1.elements in
    let x =
      Extends-trans s.elements s1.elements fs (base-Extends txt k f s g)
        (Extends-touch i b s1.elements) in
    let there1 = (base-Extends txt k f s g).has_too i there in
    let here = (Extends-touch i b s1.elements).has_too (fresh txt s) (base-Has txt k f s) in
    rw (push_own-eq i b s1 there1) (record {
      below = Below-touch s1.id_counter i b s1.elements (base-Below txt k f s g);
      linked =
          All-touch i b fs s1.elements (rw (ap target e) here)
            (base-All txt k f s fs g x (r fs (Lists-pushed i b s1.elements there1)));
    })

contained : (spec : BoxSpec) (i c : ElementId) → (title_fields spec i).container_id ≡ some c → i ≡ c
unfolding title_fields
contained spec i c e = some-inj e

titled-Good : (spec : BoxSpec) (s : Scene) → Good s → Good (titled spec s)
unfolding titled
titled-Good spec s g =
    let s1 = base box_id rectangle (box_frame spec) s in
    let rect_id = fresh box_id s in
    pushed-Good rect_id (bound_text (fresh txt s1)) (text_element (title_fields spec rect_id))
      (title_frame spec) s1 (rectangle-Good box_id (box_frame spec) s g)
      (base-Has box_id rectangle (box_frame spec) s) refl
      (λ fs l c e.
        subst (λ i. Lists fs i (bound_text (fresh txt s1))) (contained spec rect_id c e) l)

pub box-Good : (spec : BoxSpec) (s : Scene) → Good s → Good (box spec s).0
unfolding box
box-Good spec s g =
    if-Good (is_empty spec.body) (titled spec s) (text spec.body (body_spec spec) (titled spec s))
      (titled-Good spec s g)
      (text-Good spec.body (body_spec spec) (titled spec s) (titled-Good spec s g))

pub group-Good : (spec : GroupSpec) (s : Scene) → Good s → Good (group spec s).0
unfolding group
group-Good spec s g =
    let s1 = base grp rectangle spec.frame s in
    let g1 = rectangle-Good grp spec.frame s g in
    let s2 = text spec.label (label_spec spec) s1 in
    let g2 = text-Good spec.label (label_spec spec) s1 g1 in
    if-Good (is_empty spec.label) s1 _ g1 (
      if-Good (is_empty spec.sublabel) s2 _ g2 (text-Good spec.sublabel (sublabel_spec spec) s2 g2))

legend_rows-Good :
    (x width : ℤ) (items : List Str) (cursor : ℤ) (s : Scene)
    → Good s
    → Good (legend_rows x width items cursor s)
unfolding legend_rows
legend_rows-Good x width [] cursor s g = g
legend_rows-Good x width (item ∷ items) cursor s g =
    let s1 = base swa rectangle (swatch x cursor) s in
    legend_rows-Good x width items (cursor +ℤ px 34) (text item (item_spec x cursor width) s1)
      (text-Good item (item_spec x cursor width) s1 (rectangle-Good swa (swatch x cursor) s g))

pub legend-Good :
    (x y width : ℤ) (title : Str) (items : List Str) (s : Scene)
    → Good s
    → Good (legend x y width title items s).0
legend-Good x y width title items s g =
    unfold legend in
    legend_rows-Good x width items (y +ℤ px (16 + 24 + 14))
      (group (legend_group x y width title items) s).0
      (group-Good (legend_group x y width title items) s g)

pub header-Good :
    (x y width : ℤ) (title subtitle : Str) (s : Scene)
    → Good s
    → Good (header x y width title subtitle s)
unfolding header
header-Good x y width title subtitle s g =
    text-Good subtitle (subtitle_spec x y width title) (text title (title_spec x y width) s)
      (text-Good title (title_spec x y width) s g)
