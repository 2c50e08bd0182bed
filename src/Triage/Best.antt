-- ===== src/Triage/Best.antt =====
-- The two best-match loops of ralph-triage.js find a best match.
use foundry_capital_markets.Prelude.{
  ℕ, ◌≤◌, ◌<◌, ◌≡◌, refl, inl, inr, true, false, Option, none, some, List, [], ◌∷◌, ◌++◌,
  append-nil, append_assoc, arith, ltb, if◌then◌else◌, ltb→lt, Bool-cases, All, All-append, In,
  In-append_left, In-append_right, Str,
}
use foundry_capital_markets.Triage.Tables.{Module}
use foundry_capital_markets.Triage.Matching.{
  module_matches, module_length, best_module_from, find_best_module_match,
}

All-snoc :
    {A : Type 0} (P : A → Type 0) (xs : List A) {x : A} → All P xs → P x → All P (xs ++ x ∷ [])
All-snoc P xs h p = All-append P xs _ h (p, tt)

All-map :
    {A : Type 0} (P Q : A → Type 0) (xs : List A) → ((x : A) → P x → Q x) → All P xs → All Q xs
All-map P Q [] f h = tt
All-map P Q (x ∷ xs) f (p, h) = (f x p, All-map P Q xs f h)

In-snoc : {A : Type 0} (x : A) (xs : List A) → In x (xs ++ x ∷ [])
In-snoc x xs = In-append_right x xs (x ∷ []) (inl refl)

module _ (lower : Str → Str) (text : Str) where
  -- No module before matches as long a path as the best.
  abbrev pub IsBestModule : List Module → Option Module → Type 0
  IsBestModule ms none = All (λ m. module_matches lower text m ≡ false) ms
  IsBestModule ms (some b) =
      In b ms
      × (module_matches lower text b ≡ true)
      × All
          (λ m. module_matches lower text m ≡ true → module_length lower m ≤ module_length lower b)
          ms

  abbrev choose : Option Module → Module → Option Module
  choose best m =
      if module_matches lower text m
      then elim best [
        | none ↦ some m
        | some b ↦ if ltb (module_length lower b) (module_length lower m) then some m else some b
      ]
      else best

  le_self : (n : ℕ) → n ≤ n
  le_self n = omega arith

  le_lt→le : (a b c : ℕ) → a ≤ b → b < c → a ≤ c
  le_lt→le a b c h k = omega arith

  ltb_false→le : (a b : ℕ) → ltb a b ≡ false → b ≤ a
  ltb_false→le a b h = ground arith

  choose-IsBestModule :
      (seen : List Module) (best : Option Module) (m : Module)
      → IsBestModule seen best
      → IsBestModule (seen ++ m ∷ []) (choose best m)
  choose-IsBestModule seen none m h = elim (Bool-cases (module_matches lower text m)) [
    | inr missed ↦ rw missed (All-snoc _ seen h missed)
    | inl hit ↦ rw hit (
      In-snoc m seen,
      hit,
      All-snoc _ seen (All-map _ _ seen (λ x (e : module_matches lower text x ≡ false) t. cc) h)
          (λ t. omega arith),
    )
  ]
  choose-IsBestModule seen (some b) m (there, match, most) =
      elim (Bool-cases (module_matches lower text m)) [
        | inr missed ↦
            rw missed (In-append_left b seen _ there, match, All-snoc _ seen most (λ t. cc))
        | inl hit ↦ elim (Bool-cases (ltb (module_length lower b) (module_length lower m))) [
          | inl longer ↦
              rw (hit, longer)
                (
                  In-snoc m seen,
                  hit,
                  All-snoc _ seen
                      (All-map _ _ seen
                        (λ x
                            (f : module_matches lower text x ≡ true
                              → module_length lower x ≤ module_length lower b)
                            t.
                          le_lt→le _ _ _ (f t) (ltb→lt _ _ longer))
                        most)
                      (λ t. le_self (module_length lower m)),
                )
          | inr not_longer ↦
              rw (hit, not_longer)
                (
                  In-append_left b seen _ there,
                  match,
                  All-snoc _ seen most (λ t. ltb_false→le _ _ not_longer),
                )
        ]
      ]

  best_module_from-IsBestModule :
      (seen : List Module) (best : Option Module) (ms : List Module)
      → IsBestModule seen best
      → IsBestModule (seen ++ ms) (best_module_from lower text best ms)
  unfolding best_module_from
  best_module_from-IsBestModule seen best [] h = rw append-nil h
  best_module_from-IsBestModule seen best (m ∷ ms) h = rw (← append_assoc seen (m ∷ []) ms) (
      best_module_from-IsBestModule (seen ++ m ∷ []) (choose best m) ms
        (choose-IsBestModule seen best m h))

  -- The best module is one of the modules and matches, and no module that matches has a longer path;
  -- there is none exactly where no module matches.
  pub find_best_module_match-IsBestModule :
      (ms : List Module) → IsBestModule ms (find_best_module_match lower text ms)
  unfolding find_best_module_match
  find_best_module_match-IsBestModule ms = best_module_from-IsBestModule [] none ms tt
