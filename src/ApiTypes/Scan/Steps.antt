-- ===== src/ApiTypes/Scan/Steps.antt =====
-- How the loop over the matches goes on, and how words and blanks are read off the front of a text.
use foundry_capital_markets.Prelude.{
  ℕ, ◌-◌, ◌≡◌, refl, ap, ◌∙◌, ◌≢◌, true, false, Option, none, some, [], ◌∷◌, ◌++◌, arith, length,
  length-append, Str, strip_prefix, starts_with, is_space, is_word, Lacks,
}
use foundry_capital_markets.ApiTypes.Blanks.{Chars, Stops, span-append}
use foundry_capital_markets.ApiTypes.Scan.{scan_all, spaces, word1}

pub word1-append :
    (w s : Str) → Chars is_word w → w ≢ [] → Stops is_word s → word1 (w ++ s) ≡ some (w, s)
unfolding word1
word1-append [] s h ne k = absurd (ne refl)
word1-append (c ∷ w) s h ne k = rw (span-append is_word (c ∷ w) s h k) refl

pub spaces-append : (b s : Str) → Chars is_space b → Stops is_space s → spaces (b ++ s) ≡ s
unfolding spaces
spaces-append b s h k = ap (λ r. r.1) (span-append is_space b s h k)

space-word : (c : ℕ) → is_space c ≡ true → is_word c ≡ false
unfolding is_word is_space
space-word c h = ground arith

pub Stops-of_gap : (b s : Str) → Chars is_space b → Stops is_word (b ++ b'{' ∷ s)
unfolding is_word
Stops-of_gap [] s h = refl
Stops-of_gap (c ∷ b) s (x, h) = space-word c x

length-skipped : (t s : Str) → length (t ++ s) - length s ≡ length t
length-skipped t s = rw (length-append t s) (omega arith)

module _ {A : Type 0} (match_at : Str → Option (A × Str)) where
  scan_all-skip : (t s : Str) → scan_all match_at (length t) (t ++ s) ≡ scan_all match_at 0 s
  unfolding scan_all
  scan_all-skip [] s = refl
  scan_all-skip (c ∷ t) s = scan_all-skip t s

  pub scan_all-none :
      (c : ℕ) (s : Str)
      → match_at (c ∷ s) ≡ none
      → scan_all match_at 0 (c ∷ s) ≡ scan_all match_at 0 s
  unfolding scan_all
  scan_all-none c s h = rw (h, scan_all) refl

  -- A match goes on behind what it took.
  pub scan_all-found :
      (c : ℕ) (t s : Str) (a : A)
      → match_at (c ∷ (t ++ s)) ≡ some (a, s)
      → scan_all match_at 0 (c ∷ (t ++ s)) ≡ a ∷ scan_all match_at 0 s
  unfolding scan_all
  scan_all-found c t s a h =
      ap
        (λ o. elim o [
          | none ↦ scan_all match_at 0 (t ++ s)
          | some (b, rest) ↦ b ∷ scan_all match_at (length (t ++ s) - length rest) (t ++ s)
        ])
        h
      ∙ ap (λ n. a ∷ scan_all match_at n (t ++ s)) (length-skipped t s)
      ∙ ap (λ r. a ∷ r) (scan_all-skip t s)

-- A text that is empty, or begins with a given character.
abbrev pub Heads : ℕ → Str → Type 0
Heads p [] = Unit
Heads p (c ∷ s) = c ≡ p

pub strip_prefix_past :
    (p : ℕ) (q u s : Str)
    → Lacks p q
    → Heads p s
    → starts_with u q ≡ false
    → strip_prefix q (u ++ s) ≡ none
unfolding strip_prefix starts_with
strip_prefix_past p [] [] s l k h = ground (arith, h)
strip_prefix_past p [] (d ∷ u) s l k h = ground (arith, h)
strip_prefix_past p (c ∷ q) [] [] l k h = refl
strip_prefix_past p (c ∷ q) [] (d ∷ s) (n, l) k h = ground (arith, n, k)
strip_prefix_past p (c ∷ q) (d ∷ u) s (n, l) k h = ground (arith, strip_prefix_past p q u s l k)

-- Where a text does not begin with `p ∷ q`, neither does it with more behind it.
pub strip_prefix_quiet :
    (p : ℕ) (q : Str) (c : ℕ) (u s : Str)
    → Lacks p q
    → Heads p s
    → starts_with (c ∷ u) (p ∷ q) ≡ false
    → strip_prefix (p ∷ q) (c ∷ (u ++ s)) ≡ none
unfolding strip_prefix starts_with
strip_prefix_quiet p q c u s l k h = ground (arith, strip_prefix_past p q u s l k)
