-- ===== src/Prelude/Maps.antt =====
-- JavaScript's `Map` with texts for keys: a list that keeps the order in which its keys came.
use mathlib.Core.Path.{◌≡◌, refl}
use mathlib.Core.Logic.{◌≢◌}
use mathlib.Core.Option.{Option, none, some}
use mathlib.Core.List.{List, [], ◌∷◌, ◌++◌}
use native.Mathlib.Omega.{arith}
use foundry_capital_markets.Prelude.Tests.{if◌then◌else◌}
use foundry_capital_markets.Prelude.Lists.{All}
use foundry_capital_markets.Prelude.Strings.{Str, ◌===◌, ===_iff, ===_refl}

module _ {V : Type 0} where
  -- `map.set(name, value)`: a name that is there keeps its place.
  unfoldable pub set_key : Str → V → List (Str × V) → List (Str × V)
  unfolding ◌===◌
  set_key name value [] = (name, value) ∷ []
  set_key name value ((n, v) ∷ entries) =
      let rest = set_key name value entries in
      if n === name then (name, value) ∷ entries else (n, v) ∷ rest

  -- `map.get(name)`.
  unfoldable pub at_key : Str → List (Str × V) → Option V
  unfolding ◌===◌
  at_key p [] = none
  at_key p ((q, v) ∷ entries) = let rest = at_key p entries in if q === p then some v else rest

  -- Reading back after a write.
  pub at_key-set_key_self :
      (p : Str) (c : V) (fs : List (Str × V)) → at_key p (set_key p c fs) ≡ some c
  unfolding at_key set_key
  at_key-set_key_self p c [] = rw ===_refl
  at_key-set_key_self p c ((q, d) ∷ fs) = ground (arith, ===_refl p, at_key-set_key_self p c fs)

  pub at_key-set_key_ne :
      (p q : Str) (c : V) (fs : List (Str × V)) → p ≢ q → at_key q (set_key p c fs) ≡ at_key q fs
  unfolding at_key set_key
  at_key-set_key_ne p q c [] ne = ground (arith, ===_iff p q)
  at_key-set_key_ne p q c ((r, d) ∷ fs) ne =
      ground (arith, ===_iff p q, ===_iff r p, ===_iff r q, at_key-set_key_ne p q c fs)

  pub set_key_new :
      (p : Str) (c : V) (fs : List (Str × V))
      → All (λ e. e.0 ≢ p) fs
      → set_key p c fs ≡ fs ++ (p, c) ∷ []
  unfolding set_key
  set_key_new p c [] h = refl
  set_key_new p c ((q, d) ∷ fs) (n, h) = ground (arith, ===_iff q p, set_key_new p c fs h)

-- No two of the texts are the same.
abbrev pub Distinct : List Str → Type 0
Distinct [] = Unit
Distinct (n ∷ ns) = All (λ m. n ≢ m) ns × Distinct ns
