-- ===== src/Diagram/Connecting.antt =====
-- An arrow and its two ends refer to each other.
use foundry_capital_markets.Prelude.{◌≤◌, ◌≡◌, refl, some, List, map, arith, length, length-map}
use foundry_capital_markets.Prelude.Int.{ℤ, ◌-ℤ◌}
use foundry_capital_markets.Diagram.Geometry.{
  round, Point, Side, left_side, right_side, top_side, bottom_side, Elbow, straight,
  horizontal_first, vertical_first, around, bend, route,
}
use foundry_capital_markets.Diagram.Scene.{
  arr, ElementId, bound_arrow, arrow_element, Element, Scene, touch, fresh, base,
}
use foundry_capital_markets.Diagram.Shapes.{Placed}
use foundry_capital_markets.Diagram.Arrows.{
  ArrowOpts, sides_of, start_of, end_of, points_of, arrow_frame, arrow_fields, bound,
}
use foundry_capital_markets.Diagram.Lookup.{
  Has, Lists, Lists-pushed, push_bound-eq, Extends-trans, Extends-touch, Below-touch,
}
use foundry_capital_markets.Diagram.Links.{
  Refers, Good, All-touch, base-Extends, base-Below, base-Has, base-All,
}

length-around : (side : Side) (detour dx dy : ℤ) → length (around side detour dx dy) ≡ 3
unfolding around
length-around left_side detour dx dy = refl
length-around right_side detour dx dy = refl
length-around top_side detour dx dy = refl
length-around bottom_side detour dx dy = refl

length-bend : (elbow : Elbow) (dx dy : ℤ) → 1 ≤ length (bend elbow dx dy)
unfolding bend
length-bend straight dx dy = omega arith
length-bend horizontal_first dx dy = omega arith
length-bend vertical_first dx dy = omega arith

length-route :
    (leaving arriving : Side) (elbow : Elbow) (detour dx dy : ℤ)
    → 2 ≤ length (route leaving arriving elbow detour dx dy)
unfolding route
length-route leaving arriving elbow detour dx dy =
    ground (arith, length-around leaving detour dx dy, length-bend elbow dx dy)

bound-eq :
    (i : ElementId) (from to : Placed) (es : List Element)
    → Has es from.id
    → Has es to.id
    → bound i from to es
      ≡ some (map (touch to.id (bound_arrow i)) (map (touch from.id (bound_arrow i)) es))
unfolding bound
bound-eq i from to es h k =
    let es1 = map (touch from.id (bound_arrow i)) es in
    rw
      (
        bound,
        push_bound-eq from.id (bound_arrow i) es h,
        push_bound-eq to.id (bound_arrow i) es1
            ((Extends-touch from.id (bound_arrow i) es).has_too to.id k),
      )
      refl

length-points_of : (from to : Placed) (opts : ArrowOpts) → 2 ≤ length (points_of from to opts)
unfolding points_of
length-points_of from to opts =
    let s = start_of from to opts in
    let e = end_of from to opts in
    length-route (sides_of from to opts).0 (sides_of from to opts).1 opts.elbow opts.detour
      (e.x -ℤ s.x) (e.y -ℤ s.y)

arrow-Refers :
    (from to : Placed) (opts : ArrowOpts) (i : ElementId) (es : List Element)
    → Lists es from.id (bound_arrow i)
    → Lists es to.id (bound_arrow i)
    → Refers es i (arrow_element (arrow_fields from to opts))
unfolding arrow_fields
arrow-Refers from to opts i es l m =
    let f : Point → Point = λ p. record { x = round p.x; y = round p.y } in
    (l, m, rw (length-map f (points_of from to opts)) (length-points_of from to opts))

-- The ends of an arrow, which are in the scene, list it, and it refers to them.
pub arrow_element-Good :
    (from to : Placed) (opts : ArrowOpts) (s : Scene)
    → Good s
    → Has s.elements from.id
    → Has s.elements to.id
    → let k = arrow_element (arrow_fields from to opts) in
      let s1 = base arr k (arrow_frame from to opts) s in
      (es : List Element) × (bound (fresh arr s) from to s1.elements ≡ some es)
      × Good (record s1 { elements = es })
arrow_element-Good from to opts s g h k =
    let i = fresh arr s in
    let b = bound_arrow i in
    let f = arrow_frame from to opts in
    let kind = arrow_element (arrow_fields from to opts) in
    let s1 = base arr kind f s in
    let x = base-Extends arr kind f s g in
    let es1 = map (touch from.id b) s1.elements in
    let es2 = map (touch to.id b) es1 in
    let x1 = Extends-touch from.id b s1.elements in
    let x2 = Extends-touch to.id b es1 in
    let x12 = Extends-trans s1.elements es1 es2 x1 x2 in
    let h1 = x.has_too from.id h in
    let k1 = x.has_too to.id k in
    let mine = x12.has_too i (base-Has arr kind f s) in
    (
      es2,
      bound-eq i from to s1.elements h1 k1,
      record {
        below =
            Below-touch s1.id_counter to.id b es1
              (Below-touch s1.id_counter from.id b s1.elements (base-Below arr kind f s g));
        linked = All-touch to.id b es2 es1 mine (
            All-touch from.id b es2 s1.elements mine (
              base-All arr kind f s es2 g (Extends-trans s.elements s1.elements es2 x x12) (
                arrow-Refers from to opts i es2
                  (x2.lists_too from.id b (Lists-pushed from.id b s1.elements h1))
                  (Lists-pushed to.id b es1 (x1.has_too to.id k1)))));
      },
    )
