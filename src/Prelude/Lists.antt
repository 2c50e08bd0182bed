-- ===== src/Prelude/Lists.antt =====
-- Lists measured and searched by native numbers and Boolean tests, under the library's names.
use Prim.Native.Nat.{ℕ, zero, suc, ◌+◌, ◌-◌, ◌≤◌}
use mathlib.Core.Path.{◌≡◌, refl, ap, ◌∙◌, subst}
use mathlib.Core.Logic.{◌⊎◌, inl, inr}
use mathlib.Core.Bool.{Bool, true, false, ◌&&◌, ◌||◌}
use mathlib.Core.List.{List, [], ◌∷◌, ◌++◌, map, flat_map}
use mathlib.Core.Option.{Option, none, some}
use native.Mathlib.Omega.{arith}
use foundry_capital_markets.Prelude.Tests.{if◌then◌else◌, Bool-cases}

module _ {ℓ} {A : Type ℓ} where
  abbrev pub length : List A → ℕ
  length [] = 0
  length (x ∷ xs) = suc (length xs)

  abbrev pub get_elem? : List A → ℕ → Option A
  get_elem? [] i = none
  get_elem? (x ∷ xs) zero = some x
  get_elem? (x ∷ xs) (suc i) = get_elem? xs i

  abbrev pub get_or : List A → ℕ → A → A
  get_or [] i d = d
  get_or (x ∷ xs) zero d = x
  get_or (x ∷ xs) (suc i) d = get_or xs i d

  abbrev pub take : ℕ → List A → List A
  take zero xs = []
  take (suc n) [] = []
  take (suc n) (x ∷ xs) = x ∷ take n xs

  abbrev pub drop : ℕ → List A → List A
  drop zero xs = xs
  drop (suc n) [] = []
  drop (suc n) (x ∷ xs) = drop n xs

  abbrev pub is_empty : List A → Bool
  is_empty [] = true
  is_empty (x ∷ xs) = false

  -- The array methods `some`, `every`, `filter` and `find`, by a Boolean test.
  unfoldable pub any : (A → Bool) → List A → Bool
  any p [] = false
  any p (x ∷ xs) = p x || any p xs

  unfoldable pub all : (A → Bool) → List A → Bool
  all p [] = true
  all p (x ∷ xs) = p x && all p xs

  unfoldable pub keep : (A → Bool) → List A → List A
  keep p [] = []
  keep p (x ∷ xs) = let rest = keep p xs in if p x then x ∷ rest else rest

  unfoldable pub find : (A → Bool) → List A → Option A
  find p [] = none
  find p (x ∷ xs) = let rest = find p xs in if p x then some x else rest

module _ {ℓ} {A : Type ℓ} where
  pub length-append : (xs ys : List A) → length (xs ++ ys) ≡ length xs + length ys
  length-append [] ys = omega arith
  length-append (x ∷ xs) ys = omega (arith, length-append xs ys)

  pub length-map {κ} : {B : Type κ} (f : A → B) (xs : List A) → length (map f xs) ≡ length xs
  length-map f [] = refl
  length-map f (x ∷ xs) = ap suc (length-map f xs)

  pub take-append-drop : (n : ℕ) (xs : List A) → take n xs ++ drop n xs ≡ xs
  take-append-drop zero xs = refl
  take-append-drop (suc n) [] = refl
  take-append-drop (suc n) (x ∷ xs) = ap (λ t. x ∷ t) (take-append-drop n xs)

  pub length-drop : (n : ℕ) (xs : List A) → length (drop n xs) ≡ length xs - n
  length-drop zero xs = omega arith
  length-drop (suc n) [] = omega arith
  length-drop (suc n) (x ∷ xs) = omega (arith, length-drop n xs)

  pub length-take-le : (n : ℕ) (xs : List A) → length (take n xs) ≤ n
  length-take-le zero xs = omega arith
  length-take-le (suc n) [] = omega arith
  length-take-le (suc n) (x ∷ xs) = omega (arith, length-take-le n xs)

module _ {ℓ κ} {A : Type ℓ} (P : A → Type κ) where
  abbrev pub All : List A → Type κ
  All [] = Unit
  All (x ∷ xs) = P x × All xs

  pub All-append : (xs ys : List A) → All xs → All ys → All (xs ++ ys)
  All-append [] ys _ hy = hy
  All-append (x ∷ xs) ys (px, hx) hy = (px, All-append xs ys hx hy)

  pub All-append_left : (xs ys : List A) → All (xs ++ ys) → All xs
  All-append_left [] ys h = tt
  All-append_left (x ∷ xs) ys (p, h) = (p, All-append_left xs ys h)

  pub All-append_right : (xs ys : List A) → All (xs ++ ys) → All ys
  All-append_right [] ys h = h
  All-append_right (x ∷ xs) ys (p, h) = All-append_right xs ys h

module _ {A : Type 0} where
  -- A member of a list, with its place.
  abbrev pub In : A → List A → Type 0
  In a [] = ⊥
  In a (x ∷ xs) = (a ≡ x) ⊎ In a xs

  pub In-append_left : (a : A) (xs ys : List A) → In a xs → In a (xs ++ ys)
  In-append_left a (x ∷ xs) ys (inl e) = inl e
  In-append_left a (x ∷ xs) ys (inr m) = inr (In-append_left a xs ys m)
  In-append_left a [] ys m = elim m [ ]

  pub In-append_right : (a : A) (xs ys : List A) → In a ys → In a (xs ++ ys)
  In-append_right a [] ys m = m
  In-append_right a (x ∷ xs) ys m = inr (In-append_right a xs ys m)

  pub In-append : (a : A) (xs ys : List A) → In a (xs ++ ys) → In a xs ⊎ In a ys
  In-append a [] ys m = inr m
  In-append a (x ∷ xs) ys (inl e) = inl (inl e)
  In-append a (x ∷ xs) ys (inr m) = elim (In-append a xs ys m) [
    | inl l ↦ inl (inr l)
    | inr r ↦ inr r
  ]

  pub In-keep : (p : A → Bool) (a : A) (xs : List A) → In a (keep p xs) → In a xs × (p a ≡ true)
  unfolding keep
  In-keep p a [] m = elim m [ ]
  In-keep p a (x ∷ xs) m = ground (arith, In-keep p a xs)

  pub In-keep_intro : (p : A → Bool) (a : A) (xs : List A) → In a xs → p a ≡ true → In a (keep p xs)
  unfolding keep
  In-keep_intro p a (x ∷ xs) m h = ground (arith, In-keep_intro p a xs)
  In-keep_intro p a [] m h = elim m [ ]

  pub In-find : (p : A → Bool) (a : A) (xs : List A) → find p xs ≡ some a → In a xs × (p a ≡ true)
  unfolding find
  In-find p a [] e = ground arith
  In-find p a (x ∷ xs) e = ground (arith, In-find p a xs)

  pub find-none : (p : A → Bool) (a : A) (xs : List A) → find p xs ≡ none → In a xs → p a ≡ false
  unfolding find
  find-none p a [] e m = elim m [ ]
  find-none p a (x ∷ xs) e m = ground (arith, find-none p a xs)

module _ {A : Type 0} (P : A → Type 0) where
  pub All-In : (xs : List A) (a : A) → All P xs → In a xs → P a
  All-In (x ∷ xs) a (p, h) (inl e) = rw e p
  All-In (x ∷ xs) a (p, h) (inr m) = All-In xs a h m
  All-In [] a h m = elim m [ ]

  pub All-of_In : (xs : List A) → ((a : A) → In a xs → P a) → All P xs
  All-of_In [] h = tt
  All-of_In (x ∷ xs) h = (h x (inl refl), All-of_In xs (λ a m. h a (inr m)))

-- What a test keeps of a joined list.
module _ {ℓ} {A : Type ℓ} where
  pub keep-append : (p : A → Bool) (xs ys : List A) → keep p (xs ++ ys) ≡ keep p xs ++ keep p ys
  unfolding keep
  keep-append p [] ys = refl
  keep-append p (x ∷ xs) ys = ground (arith, keep-append p xs ys)

pub append-eq-nil {ℓ} : {A : Type ℓ} (xs ys : List A) → xs ++ ys ≡ [] → (xs ≡ []) × (ys ≡ [])
append-eq-nil [] ys e = (refl, e)
append-eq-nil (x ∷ xs) ys e = cc

pub In-map_intro : {A B : Type 0} (f : A → B) (a : A) (xs : List A) → In a xs → In (f a) (map f xs)
In-map_intro f a [] i = i
In-map_intro f a (x ∷ xs) (inl e) = inl (ap f e)
In-map_intro f a (x ∷ xs) (inr i) = inr (In-map_intro f a xs i)

pub map-eq-nil : {A B : Type 0} (f : A → B) (xs : List A) → map f xs ≡ [] → xs ≡ []
map-eq-nil f [] e = refl
map-eq-nil f (x ∷ xs) e = cc

pub In-any :
    {A : Type 0} (p : A → Bool) (xs : List A) → any p xs ≡ true → (x : A) × (In x xs × (p x ≡ true))
unfolding any
In-any p [] h = ground (arith, h)
In-any p (x ∷ xs) h = elim (Bool-cases (p x)) [
  | inl here ↦ (x, (inl refl, here))
  | inr later ↦ let (y, (m, e)) = In-any p xs (rw later at h) in (y, (inr m, e))
]

pub keep-nil :
    {A : Type 0} (p : A → Bool) (xs : List A) (x : A) → keep p xs ≡ [] → In x xs → p x ≡ false
keep-nil p xs x e m = elim (Bool-cases (p x)) [
  | inr out ↦ out
  | inl kept ↦ absurd (subst (In x) e (In-keep_intro p x xs m kept))
]

pub flat_map-nil :
    {A B : Type 0} (f : A → List B) (xs : List A) (x : A) → flat_map f xs ≡ [] → In x xs → f x ≡ []
unfolding flat_map
flat_map-nil f (x ∷ xs) y e (inl same) = ap f same ∙ (append-eq-nil (f x) (flat_map f xs) e).0
flat_map-nil f (x ∷ xs) y e (inr m) =
    flat_map-nil f xs y (append-eq-nil (f x) (flat_map f xs) e).1 m
flat_map-nil f [] y e m = elim m [ ]

pub flat_map-eq-nil :
    {A B : Type 0} (f : A → List B) (xs : List A)
    → ((x : A) → In x xs → f x ≡ [])
    → flat_map f xs ≡ []
unfolding flat_map
flat_map-eq-nil f [] h = refl
flat_map-eq-nil f (x ∷ xs) h = rw (h x (inl refl)) (flat_map-eq-nil f xs (λ y m. h y (inr m)))
