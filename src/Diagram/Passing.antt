-- ===== src/Diagram/Passing.antt =====
-- Every scene that is drawn shape by shape passes the validator's checks of references.
use mathlib.Core.Path.{subst}
use foundry_capital_markets.Prelude.{
  ℕ, ◌≡◌, refl, sym, ◌∙◌, ◌≢◌, inl, inr, true, none, some, List, [], ◌∷◌, arith, if◌then◌else◌,
  Option-cases, some-inj, is_empty, any, In, All-In, flat_map-eq-nil, Str,
}
use foundry_capital_markets.Prelude.Int.{ℤ}
use foundry_capital_markets.Diagram.Scene.{
  arr, ElementId, BoundElement, bound_text, bound_arrow, target, Kind, rectangle, text_element,
  arrow_element, Element, Scene, empty_scene, by_id, base, TextSpec, text,
}
use foundry_capital_markets.Diagram.Shapes.{Placed, BoxSpec, box, GroupSpec, group}
use foundry_capital_markets.Diagram.Arrows.{
  ArrowOpts, arrow_frame, arrow_fields, arrow_label, arrow, header, legend,
}
use foundry_capital_markets.Diagram.Lookup.{same_id_refl, Has, Lists, Below}
use foundry_capital_markets.Diagram.Links.{Refers, Linked, Good, text-Good}
use foundry_capital_markets.Diagram.Checks.{
  bound_element_missing, has, unless, container_errors, check_container, binding_errors,
  check_bindings, is_entry, listed, listing_errors, check_listed, check_bound, reference_errors,
}
use foundry_capital_markets.Diagram.Drawing.{
  if-Good, box-Good, group-Good, legend-Good, header-Good,
}
use foundry_capital_markets.Diagram.Connecting.{arrow_element-Good}

-- The scenes that the methods of the class make, an arrow between elements that are there.
pub data Drawn : Scene → Type 0 where
  blank : Drawn empty_scene
  with_text : {s : Scene} (content : Str) (spec : TextSpec) → Drawn s → Drawn (text content spec s)
  with_box : {s : Scene} (spec : BoxSpec) → Drawn s → Drawn (box spec s).0
  with_group : {s : Scene} (spec : GroupSpec) → Drawn s → Drawn (group spec s).0
  with_header :
      {s : Scene} (x y width : ℤ) (title subtitle : Str)
      → Drawn s
      → Drawn (header x y width title subtitle s)
  with_legend :
      {s : Scene} (x y width : ℤ) (title : Str) (items : List Str)
      → Drawn s
      → Drawn (legend x y width title items s).0
  with_arrow :
      {s : Scene} (from to : Placed) (opts : ArrowOpts) (t : Scene)
      → Drawn s
      → Has s.elements from.id
      → Has s.elements to.id
      → arrow from to opts s ≡ some t
      → Drawn t

-- An arrow between elements of a linked scene is drawn, and the scene stays linked.
arrow-Good :
    (from to : Placed) (opts : ArrowOpts) (s : Scene)
    → Good s
    → Has s.elements from.id
    → Has s.elements to.id
    → (t : Scene) × (arrow from to opts s ≡ some t) × Good t
unfolding arrow
arrow-Good from to opts s g h k =
    let (es, e, g1) = arrow_element-Good from to opts s g h k in
    let s1 = base arr (arrow_element (arrow_fields from to opts)) (arrow_frame from to opts) s in
    let s2 : Scene = record s1 { elements = es } in
    let t = text opts.label (arrow_label from to opts) s2 in
    (
      (if is_empty opts.label then s2 else t),
      rw (arrow, e) refl,
      if-Good (is_empty opts.label) s2 t g1 (text-Good opts.label (arrow_label from to opts) s2 g1),
    )

Below-nil : (n : ℕ) → Below n []
unfolding by_id
Below-nil n i (e, h) = cc

Drawn-Good : (s : Scene) → Drawn s → Good s
Drawn-Good _ blank = record { below = Below-nil 0; linked = tt }
Drawn-Good _ (with_text {s} content spec d) = text-Good content spec s (Drawn-Good s d)
Drawn-Good _ (with_box {s} spec d) = box-Good spec s (Drawn-Good s d)
Drawn-Good _ (with_group {s} spec d) = group-Good spec s (Drawn-Good s d)
Drawn-Good _ (with_header {s} x y width title subtitle d) =
    header-Good x y width title subtitle s (Drawn-Good s d)
Drawn-Good _ (with_legend {s} x y width title items d) =
    legend-Good x y width title items s (Drawn-Good s d)
Drawn-Good t (with_arrow {s} from to opts _ d h k e) =
    let (u, same, g) = arrow-Good from to opts s (Drawn-Good s d) h k in
    subst Good (some-inj (sym same ∙ e)) g

has_of_Has : (els : List Element) (i : ElementId) → Has els i → has els i ≡ true
unfolding has
has_of_Has els i (e, h) = rw (has, h) refl

is_entry_refl : (b : BoundElement) → is_entry b b ≡ true
unfolding is_entry
is_entry_refl (bound_text i) = same_id_refl i
is_entry_refl (bound_arrow i) = same_id_refl i

any-is_entry :
    (b : BoundElement) (bs : List BoundElement) → In b bs → any (λ x. is_entry x b) bs ≡ true
unfolding any
any-is_entry b [] m = elim m [ ]
any-is_entry b (x ∷ bs) (inl e) = rw (sym e, is_entry_refl b) refl
any-is_entry b (x ∷ bs) (inr m) = ground (arith, any-is_entry b bs m)

listed_of_Lists :
    (els : List Element) (i : ElementId) (b : BoundElement) → Lists els i b → listed els i b ≡ true
unfolding listed
listed_of_Lists els i b (e, h, m) = rw (listed, h) (any-is_entry b e.bound_elements m)

Has-of_Lists : (els : List Element) (i : ElementId) (b : BoundElement) → Lists els i b → Has els i
Has-of_Lists els i b (e, h, m) = (e, h)

-- The three checks of a kind whose references hold.
container_errors-Refers :
    (els : List Element) (i : ElementId) (k : Kind) → Refers els i k → container_errors els i k ≡ []
unfolding container_errors
container_errors-Refers els i rectangle r = refl
container_errors-Refers els i (arrow_element a) r = refl
container_errors-Refers els i (text_element t) r = elim (Option-cases t.container_id) [
  | inl gone ↦ simp gone refl
  | inr (c, there) ↦
      simp (there, has_of_Has els c (Has-of_Lists els c (bound_text i) (r c there))) refl
]

binding_errors-Refers :
    (els : List Element) (i : ElementId) (k : Kind) → Refers els i k → binding_errors els i k ≡ []
unfolding binding_errors
binding_errors-Refers els i rectangle r = refl
binding_errors-Refers els i (text_element t) r = refl
binding_errors-Refers els i (arrow_element a) (l, m, n) =
    rw
      (
        has_of_Has els a.start_binding (Has-of_Lists els a.start_binding (bound_arrow i) l),
        has_of_Has els a.end_binding (Has-of_Lists els a.end_binding (bound_arrow i) m),
      )
      (ground arith)

listing_errors-Refers :
    (els : List Element) (i : ElementId) (k : Kind) → Refers els i k → listing_errors els i k ≡ []
unfolding listing_errors
listing_errors-Refers els i rectangle r = refl
listing_errors-Refers els i (text_element t) r = elim (Option-cases t.container_id) [
  | inl gone ↦ simp gone refl
  | inr (c, there) ↦ simp (there, listed_of_Lists els c (bound_text i) (r c there)) refl
]
listing_errors-Refers els i (arrow_element a) (l, m, n) =
    rw
      (
        listed_of_Lists els a.start_binding (bound_arrow i) l,
        listed_of_Lists els a.end_binding (bound_arrow i) m,
      )
      refl

check_bound-Linked : (els : List Element) (e : Element) → Linked els e → check_bound els e ≡ []
unfolding check_bound
check_bound-Linked els e l =
    flat_map-eq-nil (λ b. unless (has els (target b)) (bound_element_missing e.id (target b)))
      e.bound_elements (λ b m. rw (has_of_Has els (target b) (l.lists_real b m)) refl)

-- A scene that is drawn by the methods of the class, with each arrow between elements that are in the
-- scene, has no error of the checks (a), (b) and (c): containers and the ends of arrows exist and list
-- what refers to them, and what is listed exists.
pub reference_errors-Drawn : (s : Scene) → Drawn s → reference_errors s.elements ≡ []
unfolding reference_errors
reference_errors-Drawn s d =
    let els = s.elements in
    let good : (e : Element) → In e els → Linked els e =
      λ e m. All-In (Linked els) els e (Drawn-Good s d).linked m in
    rw
      (
        flat_map-eq-nil (check_container els) els (λ e m.
            unfold check_container in container_errors-Refers els e.id e.kind (good e m).refers),
        flat_map-eq-nil (check_bindings els) els (λ e m.
            unfold check_bindings in binding_errors-Refers els e.id e.kind (good e m).refers),
        flat_map-eq-nil (check_listed els) els
            (λ e m. unfold check_listed in listing_errors-Refers els e.id e.kind (good e m).refers),
        flat_map-eq-nil (check_bound els) els (λ e m. check_bound-Linked els e (good e m)),
      )
      refl

-- Between elements of a drawn scene an arrow is always drawn: `byId.get` finds both ends.
pub arrow-ne-none :
    (from to : Placed) (opts : ArrowOpts) (s : Scene)
    → Drawn s
    → Has s.elements from.id
    → Has s.elements to.id
    → arrow from to opts s ≢ none
arrow-ne-none from to opts s d h k e =
    let (t, same, g) = arrow-Good from to opts s (Drawn-Good s d) h k in cc (same, e)
