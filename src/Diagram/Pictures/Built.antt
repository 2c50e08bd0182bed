-- ===== src/Diagram/Pictures/Built.antt =====
-- What it is for a script to draw a picture that the validator accepts.
use foundry_capital_markets.Prelude.{
  ◌≡◌, refl, Bool, true, false, Option, none, some, List, [], ◌∷◌, arith, is_empty,
}
use foundry_capital_markets.Diagram.Scene.{Scene, empty_scene}
use foundry_capital_markets.Diagram.Validate.{validate}
use foundry_capital_markets.Diagram.Pictures.{Draw}

-- Whether a script ends, with a scene in which the validator finds nothing.
unfoldable pub is_valid : Draw (Unit {0}) → Bool
unfolding validate
is_valid build = elim (build empty_scene) [
  | none ↦ false
  | some (_, s) ↦ is_empty (validate s.elements)
]

pub record Built (build : Draw (Unit {0})) : Type 0 where
  pub scene : Scene
  pub drawn : build empty_scene ≡ some (tt, scene)
  pub valid : validate scene.elements ≡ []

is_empty-nil : {A : Type 0} (xs : List A) → is_empty xs ≡ true → xs ≡ []
is_empty-nil [] h = refl
is_empty-nil (x ∷ xs) h = ground (arith, h)

pub is_valid-Built : (build : Draw (Unit {0})) → is_valid build ≡ true → Built build
unfolding is_valid
is_valid-Built build h =
    let (s, (e, v)) = at_end (build empty_scene) h in record { scene = s; drawn = e; valid = v }
  where
    at_end :
        (o : Option ((Unit {0}) × Scene))
        → (elim o [ none ↦ false | some (_, s) ↦ is_empty (validate s.elements) ]) ≡ true
        → (s : Scene) × ((o ≡ some (tt, s)) × (validate s.elements ≡ []))
    at_end none e = ground (arith, e)
    at_end (some (tt, s)) e = (s, (refl, is_empty-nil (validate s.elements) e))
