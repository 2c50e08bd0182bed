-- ===== src/Diagram/Pictures/Shown.antt =====
-- The rectangles that a scene holds for what `box` has returned; a box drawn later takes none away.
use foundry_capital_markets.Prelude.{
  ◌≡◌, refl, ◌∙◌, inl, inr, [], Bool-cases, Option-cases, is_empty, In, In-append_left,
  In-append_right, In-map_intro,
}
use foundry_capital_markets.Diagram.Geometry.{Frame}
use foundry_capital_markets.Diagram.Scene.{
  Prefix, txt, box_id, ElementId, same_id, BoundElement, bound_text, rectangle, text_element, Kind,
  Element, Scene, by_id, touch, push_bound, fresh, rounded, base, text_frame, text,
}
use foundry_capital_markets.Diagram.Shapes.{
  Placed, BoxSpec, push_own, title_fields, box_frame, title_frame, titled, body_spec, box,
}

-- An element of the scene is the rectangle of a placed box.
pub record Shows (s : Scene) (p : Placed) : Type 0 where
  pub element : Element
  pub there : In element s.elements
  pub same_element : element.id ≡ p.id
  pub is_rectangle : element.kind ≡ rectangle
  pub same_frame : element.frame ≡ rounded p.frame

abbrev pub Keeps : Scene → Scene → Type 0
Keeps s t = (p : Placed) → Shows s p → Shows t p

pub Keeps-trans : {s t u : Scene} → Keeps s t → Keeps t u → Keeps s u
Keeps-trans f g p h = g p (f p h)

base-Keeps : (prefix : Prefix) (k : Kind) (f : Frame) (s : Scene) → Keeps s (base prefix k f s)
unfolding base
base-Keeps prefix k f s p h = record {
  element = h.element;
  there = In-append_left h.element s.elements _ h.there;
  same_element = h.same_element;
  is_rectangle = h.is_rectangle;
  same_frame = h.same_frame;
}

base-Shows :
    (f : Frame) (s : Scene)
    → Shows (base box_id rectangle f s) (record { id = fresh box_id s; frame = f })
unfolding base
base-Shows f s = record {
  element = record {
    id = fresh box_id s;
    kind = rectangle;
    frame = rounded f;
    bound_elements = [];
  };
  there = In-append_right _ s.elements _ (inl refl);
  same_element = refl;
  is_rectangle = refl;
  same_frame = refl;
}

touch-id : (i : ElementId) (b : BoundElement) (e : Element) → (touch i b e).id ≡ e.id
unfolding touch
touch-id i b e = elim (Bool-cases (same_id e.id i)) [
  | inl h ↦ rw (h, touch) refl
  | inr h ↦ rw (h, touch) refl
]

touch-kind : (i : ElementId) (b : BoundElement) (e : Element) → (touch i b e).kind ≡ e.kind
unfolding touch
touch-kind i b e = elim (Bool-cases (same_id e.id i)) [
  | inl h ↦ rw (h, touch) refl
  | inr h ↦ rw (h, touch) refl
]

touch-frame : (i : ElementId) (b : BoundElement) (e : Element) → (touch i b e).frame ≡ e.frame
unfolding touch
touch-frame i b e = elim (Bool-cases (same_id e.id i)) [
  | inl h ↦ rw (h, touch) refl
  | inr h ↦ rw (h, touch) refl
]

push_own-Keeps : (i : ElementId) (b : BoundElement) (s : Scene) → Keeps s (push_own i b s)
unfolding push_own push_bound
push_own-Keeps i b s p h = elim (Option-cases (by_id s.elements i)) [
  | inl gone ↦ rw (gone, push_own, push_bound) h
  | inr (e, found) ↦
      rw (found, push_own, push_bound)
        (record {
          element = touch i b h.element;
          there = In-map_intro (touch i b) h.element s.elements h.there;
          same_element = touch-id i b h.element ∙ h.same_element;
          is_rectangle = touch-kind i b h.element ∙ h.is_rectangle;
          same_frame = touch-frame i b h.element ∙ h.same_frame;
        })
]

-- What follows the rectangle of a box.
after_rectangle :
    (spec : BoxSpec) (s : Scene) → Keeps (base box_id rectangle (box_frame spec) s) (titled spec s)
unfolding titled
after_rectangle spec s =
    let s1 = base box_id rectangle (box_frame spec) s in
    let fields = text_element (title_fields spec (fresh box_id s)) in
    Keeps-trans (base-Keeps txt fields (title_frame spec) s1) (
      push_own-Keeps (fresh box_id s) (bound_text (fresh txt s1))
        (base txt fields (title_frame spec) s1))

body-Keeps : (spec : BoxSpec) (s : Scene) → Keeps (titled spec s) (box spec s).0
unfolding box text
body-Keeps spec s p h = elim (Bool-cases (is_empty spec.body)) [
  | inl e ↦ rw (e, box) h
  | inr e ↦
      rw (e, box) (base-Keeps txt _ (text_frame spec.body (body_spec spec)) (titled spec s) p h)
]

pub box-Keeps : (spec : BoxSpec) (s : Scene) → Keeps s (box spec s).0
box-Keeps spec s =
    Keeps-trans (base-Keeps box_id rectangle (box_frame spec) s)
      (Keeps-trans (after_rectangle spec s) (body-Keeps spec s))

pub box-Shows : (spec : BoxSpec) (s : Scene) → Shows (box spec s).0 (box spec s).1
unfolding box
box-Shows spec s =
    body-Keeps spec s (box spec s).1
      (after_rectangle spec s (box spec s).1 (base-Shows (box_frame spec) s))
