-- ===== src/Diagram/Overlap.antt =====
-- The rectangles of scripts/diagrams/validate.mjs that overlap: overlaps, contains and the errors of
-- the check (d).
use mathlib.Core.Path.{subst}
use foundry_capital_markets.Prelude.{
  ◌≤◌, ◌≡◌, refl, inl, inr, Bool, true, false, not, ◌&&◌, ◌||◌, List, [], ◌∷◌, ◌++◌, map, arith,
  Bool-cases, length, any, keep, In, In-keep_intro, append-eq-nil, map-eq-nil,
}
use foundry_capital_markets.Prelude.Int.{ℤ, ◌+ℤ◌, ◌<ℤ◌, leb_ℤ, ltb_ℤ}
use foundry_capital_markets.Diagram.Geometry.{Point, Frame}
use foundry_capital_markets.Diagram.Scene.{
  ElementId, same_id, rectangle, text_element, arrow_element, Element,
}

-- The edges behind the corner.
unfoldable pub right_of : Frame → ℤ
unfolding ◌+ℤ◌
right_of f = f.left +ℤ f.width

unfoldable pub bottom_of : Frame → ℤ
unfolding ◌+ℤ◌
bottom_of f = f.top +ℤ f.height

unfoldable pub overlaps : Frame → Frame → Bool
unfolding right_of bottom_of
overlaps a b =
    ltb_ℤ a.left (right_of b)
    && ltb_ℤ b.left (right_of a)
    && ltb_ℤ a.top (bottom_of b)
    && ltb_ℤ b.top (bottom_of a)

unfoldable pub contains : Frame → Frame → Bool
unfolding right_of bottom_of
contains outer inner =
    leb_ℤ outer.left inner.left
    && leb_ℤ outer.top inner.top
    && leb_ℤ (right_of inner) (right_of outer)
    && leb_ℤ (bottom_of inner) (bottom_of outer)
    && (ltb_ℤ inner.width outer.width || ltb_ℤ inner.height outer.height)

-- What the checks read of a rectangle.
pub record Rect : Type 0 where
  pub id : ElementId
  pub frame : Frame

-- `rects`: the rectangles.
unfoldable pub rects : List Element → List Rect
rects [] = []
rects (e ∷ es) =
    let rest = rects es in
    elim e.kind [
      | rectangle ↦ record { id = e.id; frame = e.frame } ∷ rest
      | text_element t ↦ rest
      | arrow_element a ↦ rest
    ]

-- Whether one of the rectangles lies within `r`. None contains itself.
unfoldable pub holds_one : List Rect → Rect → Bool
unfolding any contains
holds_one rs r = any (λ (q : Rect). contains r.frame q.frame) rs

-- `containersSet`: the ids of the rectangles that contain another.
unfoldable pub containers : List Rect → List ElementId
unfolding keep holds_one
containers rs = map (λ (r : Rect). r.id) (keep (holds_one rs) rs)

-- `containersSet.has(r.id)`.
unfoldable pub is_container : List ElementId → Rect → Bool
unfolding any same_id
is_container ids r = any (same_id r.id) ids

abbrev pub frames : List Rect → List Frame
frames rs = map (λ (r : Rect). r.frame) rs

-- The frames of the rectangles whose id is not in `containersSet`, or is in it.
abbrev leaves_off : List ElementId → List Rect → List Frame
leaves_off ids rs = frames (keep (λ r. not (is_container ids r)) rs)

-- `leaves`, by their frames.
unfoldable pub leaves : List Rect → List Frame
unfolding keep containers is_container
leaves rs = leaves_off (containers rs) rs

abbrev pub pair : Frame → Frame → Frame × Frame
pair a b = (a, b)

-- The pairs that overlap, each once.
unfoldable pub overlapping : List Frame → List (Frame × Frame)
unfolding keep overlaps
overlapping [] = []
overlapping (r ∷ rs) = map (pair r) (keep (overlaps r) rs) ++ overlapping rs

unfoldable pub overlap_errors : List Element → List (Frame × Frame)
overlap_errors els = overlapping (leaves (rects els))

-- Whether a point is within a frame, off its edges.
unfoldable pub inside : Point → Frame → Bool
unfolding right_of bottom_of
inside p f =
    ltb_ℤ f.left p.x && ltb_ℤ p.x (right_of f) && ltb_ℤ f.top p.y && ltb_ℤ p.y (bottom_of f)

abbrev Inside : Point → Frame → Type 0
Inside p f = (f.left <ℤ p.x) × (p.x <ℤ right_of f) × (f.top <ℤ p.y) × (p.y <ℤ bottom_of f)

inside-Inside : (p : Point) (f : Frame) → inside p f ≡ true → Inside p f
unfolding inside
inside-Inside p f h = ground arith

overlaps_of_Inside : (p : Point) (a b : Frame) → Inside p a → Inside p b → overlaps a b ≡ true
unfolding overlaps
overlaps_of_Inside p a b h k = ground arith

overlaps_of_inside :
    (p : Point) (a b : Frame) → inside p a ≡ true → inside p b ≡ true → overlaps a b ≡ true
overlaps_of_inside p a b h k = overlaps_of_Inside p a b (inside-Inside p a h) (inside-Inside p b k)

-- A rectangle does not contain itself.
contains_irrefl : (a : Frame) → contains a a ≡ false
unfolding contains
contains_irrefl a = ground arith

keep-eq-nil :
    (q : Frame → Bool) (xs : List Frame) → ((x : Frame) → In x xs → q x ≡ false) → keep q xs ≡ []
unfolding keep
keep-eq-nil q [] h = refl
keep-eq-nil q (x ∷ xs) h = rw (h x (inl refl)) (keep-eq-nil q xs (λ y m. h y (inr m)))

none_inside :
    (p : Point) (r : Frame) (rs : List Frame)
    → inside p r ≡ true
    → keep (overlaps r) rs ≡ []
    → keep (inside p) rs ≡ []
none_inside p r rs h e = keep-eq-nil (inside p) rs (λ q m. elim (Bool-cases (inside p q)) [
  | inr out ↦ out
  | inl within ↦ absurd (
      subst (λ xs. In q xs) e
        (In-keep_intro (overlaps r) q rs m (overlaps_of_inside p r q h within)))
])

overlapping-inside :
    (p : Point) (rs : List Frame) → overlapping rs ≡ [] → length (keep (inside p) rs) ≤ 1
unfolding overlapping keep
overlapping-inside p [] e = omega arith
overlapping-inside p (r ∷ rs) e =
    let (pairs, rest) = append-eq-nil (map (pair r) (keep (overlaps r) rs)) (overlapping rs) e in
    elim (Bool-cases (inside p r)) [
      | inl within ↦
          simp
            (within, none_inside p r rs within (map-eq-nil (pair r) (keep (overlaps r) rs) pairs))
            (omega arith)
      | inr out ↦ simp out (overlapping-inside p rs rest)
    ]

-- In a diagram without an error of the check (d) no point lies within two rectangles, those left out
-- that contain another.
pub overlap_errors-inside :
    (els : List Element) (p : Point)
    → overlap_errors els ≡ []
    → length (keep (inside p) (leaves (rects els))) ≤ 1
unfolding overlap_errors
overlap_errors-inside els p e = overlapping-inside p (leaves (rects els)) e
