-- ===== src/Diagram/Links.antt =====
-- What the shapes of a scene refer to is there, and refers back.
use foundry_capital_markets.Prelude.{
  ◌≤◌, ◌≡◌, inl, inr, none, some, List, [], ◌∷◌, map, arith, Bool-cases, length, All, All-append,
  In, In-append, Str,
}
use foundry_capital_markets.Diagram.Geometry.{Frame}
use foundry_capital_markets.Diagram.Scene.{
  Prefix, txt, ElementId, same_id, BoundElement, bound_text, bound_arrow, target, Kind, rectangle,
  text_element, arrow_element, Element, Scene, touch, fresh, rounded, base, TextSpec, text_lines,
  text_frame, text,
}
use foundry_capital_markets.Diagram.Lookup.{
  Has, Lists, Below, Extends, Extends-append, Has-new, Below-append,
}

-- A text's container lists the text, and both ends of an arrow list the arrow.
abbrev pub Refers : List Element → ElementId → Kind → Type 0
Refers els i rectangle = Unit
Refers els i (text_element t) =
    (c : ElementId) → t.container_id ≡ some c → Lists els c (bound_text i)
Refers els i (arrow_element a) =
    Lists els a.start_binding (bound_arrow i)
    × Lists els a.end_binding (bound_arrow i)
    × (2 ≤ length a.points)

pub record Linked (els : List Element) (e : Element) : Type 0 where
  pub refers : Refers els e.id e.kind
  pub lists_real : (b : BoundElement) → In b e.bound_elements → Has els (target b)

pub record Good (s : Scene) : Type 0 where
  pub below : Below s.id_counter s.elements
  pub linked : All (Linked s.elements) s.elements

Refers-Extends :
    (els fs : List Element) (i : ElementId) (k : Kind)
    → Extends els fs
    → Refers els i k
    → Refers fs i k
Refers-Extends els fs i rectangle x r = tt
Refers-Extends els fs i (text_element t) x r = λ c e. x.lists_too c (bound_text i) (r c e)
Refers-Extends els fs i (arrow_element a) x (r, q, n) =
    (x.lists_too a.start_binding (bound_arrow i) r, x.lists_too a.end_binding (bound_arrow i) q, n)

Linked-Extends : (els fs : List Element) (e : Element) → Extends els fs → Linked els e → Linked fs e
Linked-Extends els fs e x l = record {
  refers = Refers-Extends els fs e.id e.kind x l.refers;
  lists_real = λ b m. x.has_too (target b) (l.lists_real b m);
}

All-Extends : (els fs es : List Element) → Extends els fs → All (Linked els) es → All (Linked fs) es
All-Extends els fs [] x h = tt
All-Extends els fs (e ∷ es) x (l, h) = (Linked-Extends els fs e x l, All-Extends els fs es x h)

touch-Linked :
    (j : ElementId) (b : BoundElement) (els : List Element) (e : Element)
    → Has els (target b)
    → Linked els e
    → Linked els (touch j b e)
touch-Linked j b els e there l = elim (Bool-cases (same_id e.id j)) [
  | inr other ↦ unfold touch in simp other l
  | inl same ↦
      unfold touch in
      simp same (record {
        refers = l.refers;
        lists_real = λ x m. elim (In-append x e.bound_elements (b ∷ []) m) [
          | inl old ↦ l.lists_real x old
          | inr (inl new) ↦ rw new there
          | inr (inr m) ↦ elim m [ ]
        ];
      })
]

-- Pushing an entry keeps what is linked, in a list of elements that it does not change.
pub All-touch :
    (j : ElementId) (b : BoundElement) (els es : List Element)
    → Has els (target b)
    → All (Linked els) es
    → All (Linked els) (map (touch j b) es)
All-touch j b els [] there h = tt
All-touch j b els (e ∷ es) there (l, h) =
    (touch-Linked j b els e there l, All-touch j b els es there h)

-- An element that lists nothing is linked if it refers to what is there.
bare_Linked :
    (els : List Element) (i : ElementId) (k : Kind) (f : Frame)
    → Refers els i k
    → Linked els (record { id = i; kind = k; frame = f; bound_elements = [] })
bare_Linked els i k f r = record { refers = r; lists_real = λ b m. elim m [ ] }

-- What `base` makes.
abbrev made : Prefix → Kind → Frame → Scene → Element
made prefix kind frame s = record {
  id = fresh prefix s;
  kind = kind;
  frame = rounded frame;
  bound_elements = [];
}

pub base-Extends :
    (prefix : Prefix) (kind : Kind) (frame : Frame) (s : Scene)
    → Good s
    → Extends s.elements (base prefix kind frame s).elements
unfolding base fresh
base-Extends prefix kind frame s g =
    Extends-append s.id_counter s.elements (made prefix kind frame s) g.below (omega arith)

pub base-Below :
    (prefix : Prefix) (kind : Kind) (frame : Frame) (s : Scene)
    → Good s
    → Below (base prefix kind frame s).id_counter (base prefix kind frame s).elements
unfolding base fresh
base-Below prefix kind frame s g =
    Below-append s.id_counter s.elements (made prefix kind frame s) g.below (omega arith)

pub base-Has :
    (prefix : Prefix) (kind : Kind) (frame : Frame) (s : Scene)
    → Has (base prefix kind frame s).elements (fresh prefix s)
unfolding base
base-Has prefix kind frame s = Has-new s.elements (made prefix kind frame s)

-- What `base` adds is linked in a later list, if it refers to what is there then.
pub base-All :
    (prefix : Prefix) (kind : Kind) (frame : Frame) (s : Scene) (fs : List Element)
    → Good s
    → Extends s.elements fs
    → Refers fs (fresh prefix s) kind
    → All (Linked fs) (base prefix kind frame s).elements
unfolding base
base-All prefix kind frame s fs g x r =
    All-append (Linked fs) s.elements _ (All-Extends s.elements fs s.elements x g.linked)
      (bare_Linked fs (fresh prefix s) kind (rounded frame) r, tt)

-- A new element that refers to nothing new.
pub base-Good :
    (prefix : Prefix) (kind : Kind) (frame : Frame) (s : Scene)
    → Good s
    → Refers (base prefix kind frame s).elements (fresh prefix s) kind
    → Good (base prefix kind frame s)
base-Good prefix kind frame s g r = record {
  below = base-Below prefix kind frame s g;
  linked =
      base-All prefix kind frame s (base prefix kind frame s).elements g
        (base-Extends prefix kind frame s g) r;
}

pub text-Good : (content : Str) (spec : TextSpec) (s : Scene) → Good s → Good (text content spec s)
unfolding text
text-Good content spec s g =
    base-Good txt
      (text_element (record {
        lines = text_lines content spec;
        original_text = content;
        font_size = spec.font_size;
        font_family = spec.font_family;
        container_id = none;
      }))
      (text_frame content spec) s g (λ c e. cc)

pub rectangle-Good :
    (prefix : Prefix) (frame : Frame) (s : Scene) → Good s → Good (base prefix rectangle frame s)
rectangle-Good prefix frame s g = base-Good prefix rectangle frame s g tt
