-- ===== src/ApiTypes/Types/Ends.antt =====
-- The first and the last characters of a text: what `trim` and a suffix make of it.
use mathlib.Core.List.{reverse, reverse-append, reverse-reverse}
use foundry_capital_markets.Prelude.{
  ℕ, ◌≡◌, refl, sym, ap, ◌∙◌, ◌≢◌, Bool, true, false, none, some, [], ◌∷◌, ◌++◌, arith, ◌==◌, any,
  Str, strip_prefix, is_space, trim_end, trim, Lacks,
}
use foundry_capital_markets.ApiTypes.Blanks.{Chars, Stops, trim_start_of_Stops}
use foundry_capital_markets.ApiTypes.Types.{strip_suffix}

trim_end_solid : (u : Str) (d : ℕ) → is_space d ≡ false → trim_end (u ++ d ∷ []) ≡ u ++ d ∷ []
unfolding trim_end
trim_end_solid u d h =
    rw
      (
        reverse-append u (d ∷ []),
        trim_start_of_Stops (d ∷ reverse u) h,
        sym (reverse-append u (d ∷ [])),
        reverse-reverse (u ++ d ∷ []),
      )
      refl

-- Nothing is cut of a text that begins and ends with other than blanks.
pub trim_solid :
    (s u : Str) (d : ℕ) → Stops is_space s → s ≡ u ++ d ∷ [] → is_space d ≡ false → trim s ≡ s
unfolding trim
trim_solid s u d a e h =
    ap trim_end (trim_start_of_Stops s a) ∙ ap trim_end e ∙ trim_end_solid u d h ∙ sym e

strip_prefix_char : (c d : ℕ) (s : Str) → c ≡ d → strip_prefix (c ∷ []) (d ∷ s) ≡ some s
unfolding strip_prefix
strip_prefix_char c d s h = ground (arith, h)

strip_prefix_char_ne : (c d : ℕ) (s : Str) → c ≢ d → strip_prefix (c ∷ []) (d ∷ s) ≡ none
unfolding strip_prefix
strip_prefix_char_ne c d s h = ground (arith, h)

strip_suffix_of_some :
    (p s r : Str)
    → strip_prefix (reverse p) (reverse s) ≡ some r
    → strip_suffix p s ≡ some (reverse r)
unfolding strip_suffix
strip_suffix_of_some p s r h = rw (h, strip_suffix) refl

strip_suffix_of_none :
    (p s : Str) → strip_prefix (reverse p) (reverse s) ≡ none → strip_suffix p s ≡ none
unfolding strip_suffix
strip_suffix_of_none p s h = rw (h, strip_suffix) refl

pub strip_suffix-append : (u : Str) (c : ℕ) → strip_suffix (c ∷ []) (u ++ c ∷ []) ≡ some u
strip_suffix-append u c =
    strip_suffix_of_some (c ∷ []) (u ++ c ∷ []) (reverse u) (
      ap (strip_prefix (c ∷ [])) (reverse-append u (c ∷ []))
      ∙ strip_prefix_char c c (reverse u) refl)
    ∙ ap some (reverse-reverse u)

pub strip_suffix_ne : (u : Str) (c d : ℕ) → c ≢ d → strip_suffix (c ∷ []) (u ++ d ∷ []) ≡ none
strip_suffix_ne u c d n = strip_suffix_of_none (c ∷ []) (u ++ d ∷ []) (
    ap (strip_prefix (c ∷ [])) (reverse-append u (d ∷ [])) ∙ strip_prefix_char_ne c d (reverse u) n)

-- A prefix holds no character that the text lacks.
pub strip_prefix_of_Lacks :
    (c : ℕ) (p s : Str) → any (λ d. d == c) p ≡ true → Lacks c s → strip_prefix p s ≡ none
unfolding strip_prefix any
strip_prefix_of_Lacks c [] s h k = ground (arith, h)
strip_prefix_of_Lacks c (d ∷ p) [] h k = refl
strip_prefix_of_Lacks c (d ∷ p) (e ∷ s) h (n, k) = ground (arith, n, h, strip_prefix_of_Lacks c p s)

-- The last character of a text that is not empty.
pub last_char :
    (p : ℕ → Bool) (s : Str)
    → Chars p s
    → s ≢ []
    → (u : Str) × (d : ℕ) × ((s ≡ u ++ d ∷ []) × (p d ≡ true))
last_char p [] h n = absurd (n refl)
last_char p (c ∷ []) (x, h) n = ([], c, (refl, x))
last_char p (c ∷ d ∷ s) (x, h) n =
    let (u, e, (same, last)) = last_char p (d ∷ s) h (λ z. ground (arith, z)) in
    (c ∷ u, e, (ap (λ t. c ∷ t) same, last))
