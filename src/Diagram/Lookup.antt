-- ===== src/Diagram/Lookup.antt =====
-- Looking an element up where elements are added at the end and entries are pushed.
use foundry_capital_markets.Prelude.{
  ℕ, ◌≤◌, ◌<◌, ◌≡◌, refl, sym, ap, ◌∙◌, ◌↔◌, inl, inr, true, false, Option, none, some, List, [],
  ◌∷◌, ◌++◌, map, arith, if◌then◌else◌, Bool-cases, Option-cases, In, In-append_left,
  In-append_right,
}
use foundry_capital_markets.Diagram.Scene.{
  Prefix, txt, box_id, grp, arr, swa, ElementId, same_prefix, same_id, BoundElement, Element,
  last_of, named, by_id, touch, push_bound,
}

same_prefix_iff : (p q : Prefix) → (same_prefix p q ≡ true) ↔ (p ≡ q)
unfolding same_prefix
same_prefix_iff txt q = elim q [
  | txt ↦ ground arith
  | box_id ↦ ground arith
  | grp ↦ ground arith
  | arr ↦ ground arith
  | swa ↦ ground arith
]
same_prefix_iff box_id q = elim q [
  | txt ↦ ground arith
  | box_id ↦ ground arith
  | grp ↦ ground arith
  | arr ↦ ground arith
  | swa ↦ ground arith
]
same_prefix_iff grp q = elim q [
  | txt ↦ ground arith
  | box_id ↦ ground arith
  | grp ↦ ground arith
  | arr ↦ ground arith
  | swa ↦ ground arith
]
same_prefix_iff arr q = elim q [
  | txt ↦ ground arith
  | box_id ↦ ground arith
  | grp ↦ ground arith
  | arr ↦ ground arith
  | swa ↦ ground arith
]
same_prefix_iff swa q = elim q [
  | txt ↦ ground arith
  | box_id ↦ ground arith
  | grp ↦ ground arith
  | arr ↦ ground arith
  | swa ↦ ground arith
]

pub same_id_iff : (i j : ElementId) → (same_id i j ≡ true) ↔ (i ≡ j)
unfolding same_id
same_id_iff i j = ground (arith, same_prefix_iff i.prefix j.prefix)

pub same_id_refl : (i : ElementId) → same_id i i ≡ true
same_id_refl i = (same_id_iff i i).1 refl

-- There is an element of an id, and it lists an entry.
abbrev pub Has : List Element → ElementId → Type 0
Has els i = (e : Element) × (by_id els i ≡ some e)

abbrev pub Lists : List Element → ElementId → BoundElement → Type 0
Lists els i b = (e : Element) × (by_id els i ≡ some e) × In b e.bound_elements

-- The ids in use are below the counter.
abbrev pub Below : ℕ → List Element → Type 0
Below n els = (i : ElementId) → Has els i → i.number ≤ n

last_of_assoc : (a b c : Option Element) → last_of a (last_of b c) ≡ last_of (last_of a b) c
last_of_assoc a b none = refl
last_of_assoc a b (some f) = refl

pub by_id-append :
    (els : List Element) (e : Element) (i : ElementId)
    → by_id (els ++ e ∷ []) i ≡ last_of (by_id els i) (named i e)
unfolding by_id
by_id-append [] e i = elim (named i e) as (λ o. last_of o none ≡ last_of none o) [
  | none ↦ refl
  | some f ↦ refl
]
by_id-append (x ∷ els) e i =
    rw (by_id-append els e i) (last_of_assoc (named i x) (by_id els i) (named i e))

abbrev map_some : (Element → Element) → Option Element → Option Element
map_some f none = none
map_some f (some e) = some (f e)

map_some-last_of :
    (f : Element → Element) (a b : Option Element)
    → last_of (map_some f a) (map_some f b) ≡ map_some f (last_of a b)
map_some-last_of f a none = refl
map_some-last_of f a (some e) = refl

-- Pushing an entry changes no id.
touch-id : (j : ElementId) (b : BoundElement) (e : Element) → (touch j b e).id ≡ e.id
unfolding touch
touch-id j b e = ground arith

named-touch :
    (j : ElementId) (b : BoundElement) (e : Element) (i : ElementId)
    → named i (touch j b e) ≡ map_some (touch j b) (named i e)
named-touch j b e i =
    simp (touch-id j b e)
      (elim (same_id e.id i)
        as (λ t.
          (if t then some (touch j b e) else none)
          ≡ map_some (touch j b) (if t then some e else none)) [ true ↦ refl | false ↦ refl ])

pub by_id-touch :
    (j : ElementId) (b : BoundElement) (els : List Element) (i : ElementId)
    → by_id (map (touch j b) els) i ≡ map_some (touch j b) (by_id els i)
unfolding by_id
by_id-touch j b [] i = refl
by_id-touch j b (x ∷ els) i =
    rw (by_id-touch j b els i, named-touch j b x i)
      (map_some-last_of (touch j b) (named i x) (by_id els i))

named-id : (i : ElementId) (x e : Element) → named i x ≡ some e → e.id ≡ i
named-id i x e h = ground (arith, same_id_iff x.id i)

pub by_id-id : (els : List Element) (i : ElementId) (e : Element) → by_id els i ≡ some e → e.id ≡ i
unfolding by_id
by_id-id [] i e h = cc
by_id-id (x ∷ els) i e h = elim (Option-cases (by_id els i)) [
  | inl gone ↦ named-id i x e (sym (rw gone refl) ∙ h)
  | inr (f, there) ↦ by_id-id els i e (sym (rw there refl) ∙ h)
]

Has-touch :
    (j : ElementId) (b : BoundElement) (els : List Element) (i : ElementId)
    → Has els i
    → Has (map (touch j b) els) i
Has-touch j b els i (e, h) = (touch j b e, by_id-touch j b els i ∙ rw h refl)

In-touch :
    (j : ElementId) (b : BoundElement) (e : Element) (x : BoundElement)
    → In x e.bound_elements
    → In x (touch j b e).bound_elements
unfolding touch
In-touch j b e x m = elim (Bool-cases (same_id e.id j)) [
  | inl same ↦ simp same (In-append_left x e.bound_elements (b ∷ []) m)
  | inr other ↦ simp other m
]

Lists-touch :
    (j : ElementId) (b : BoundElement) (els : List Element) (i : ElementId) (x : BoundElement)
    → Lists els i x
    → Lists (map (touch j b) els) i x
Lists-touch j b els i x (e, h, m) =
    (touch j b e, by_id-touch j b els i ∙ rw h refl, In-touch j b e x m)

-- What is pushed is listed.
pub Lists-pushed :
    (j : ElementId) (b : BoundElement) (els : List Element)
    → Has els j
    → Lists (map (touch j b) els) j b
unfolding touch
Lists-pushed j b els (e, h) = (
  touch j b e,
  by_id-touch j b els j ∙ rw h refl,
  simp ((same_id_iff e.id j).1 (by_id-id els j e h))
      (In-append_right b e.bound_elements (b ∷ []) (inl refl)),
)

pub push_bound-eq :
    (j : ElementId) (b : BoundElement) (els : List Element)
    → Has els j
    → push_bound j b els ≡ some (map (touch j b) els)
unfolding push_bound
push_bound-eq j b els (e, h) = rw (push_bound, h) refl

-- What there is, and what is listed, in the first list is so in the second.
pub record Extends (els fs : List Element) : Type 0 where
  pub has_too : (i : ElementId) → Has els i → Has fs i
  pub lists_too : (i : ElementId) (b : BoundElement) → Lists els i b → Lists fs i b

pub Extends-trans : (a b c : List Element) → Extends a b → Extends b c → Extends a c
Extends-trans a b c h k = record {
  has_too = λ i x. k.has_too i (h.has_too i x);
  lists_too = λ i e x. k.lists_too i e (h.lists_too i e x);
}

pub Extends-touch :
    (j : ElementId) (b : BoundElement) (els : List Element) → Extends els (map (touch j b) els)
Extends-touch j b els = record { has_too = Has-touch j b els; lists_too = Lists-touch j b els }

-- An element with a new id hides none.
by_id_kept :
    (n : ℕ) (els : List Element) (e : Element) (i : ElementId) (f : Element)
    → Below n els
    → n < e.id.number
    → by_id els i ≡ some f
    → by_id (els ++ e ∷ []) i ≡ some f
by_id_kept n els e i f below new h = elim (Bool-cases (same_id e.id i)) [
  | inl same ↦
      let k = below i (f, h) in
      let q = (same_id_iff e.id i).0 same in
      absurd (omega (arith, k, new, ap (λ (x : ElementId). x.number) q))
  | inr other ↦ by_id-append els e i ∙ rw (h, other) refl
]

pub Extends-append :
    (n : ℕ) (els : List Element) (e : Element)
    → Below n els
    → n < e.id.number
    → Extends els (els ++ e ∷ [])
Extends-append n els e below new = record {
  has_too = λ i (f, h). (f, by_id_kept n els e i f below new h);
  lists_too = λ i b (f, h, m). (f, by_id_kept n els e i f below new h, m);
}

pub Has-new : (els : List Element) (e : Element) → Has (els ++ e ∷ []) e.id
Has-new els e = (e, by_id-append els e e.id ∙ rw (same_id_refl e.id) refl)

pub Below-append :
    (n : ℕ) (els : List Element) (e : Element)
    → Below n els
    → n ≤ e.id.number
    → Below e.id.number (els ++ e ∷ [])
Below-append n els e below h i (f, k) = elim (Bool-cases (same_id e.id i)) [
  | inl same ↦ omega (arith, ap (λ (x : ElementId). x.number) ((same_id_iff e.id i).0 same))
  | inr other ↦ omega (arith, below i (f, sym (by_id-append els e i ∙ simp other refl) ∙ k), h)
]

pub Below-touch :
    (n : ℕ) (j : ElementId) (b : BoundElement) (els : List Element)
    → Below n els
    → Below n (map (touch j b) els)
Below-touch n j b els below i (f, h) = elim (Option-cases (by_id els i)) [
  | inl gone ↦ cc (h, by_id-touch j b els i, gone)
  | inr (e, there) ↦ below i (e, there)
]
