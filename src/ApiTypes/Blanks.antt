-- ===== src/ApiTypes/Blanks.antt =====
-- Runs of characters and blanks: what `span` and `trim` make of texts that are put together.
use mathlib.Core.List.{reverse, reverse-append, reverse-reverse, reverse-cons}
use foundry_capital_markets.Prelude.{
  ℕ, ◌≡◌, refl, inl, inr, Bool, true, false, none, some, [], ◌∷◌, ◌++◌, append_assoc, arith,
  Bool-cases, All, All-append, Str, is_space, is_word, trim_start, trim_end, Lacks, span, cut_at,
}

-- Every character passes a test.
abbrev pub Chars : (ℕ → Bool) → Str → Type 0
Chars p = All (λ c. p c ≡ true)

-- The first character fails the test, or there is none.
abbrev pub Stops : (ℕ → Bool) → Str → Type 0
Stops p [] = Unit
Stops p (c ∷ s) = p c ≡ false

pub span-append : (p : ℕ → Bool) (w s : Str) → Chars p w → Stops p s → span p (w ++ s) ≡ (w, s)
unfolding span
span-append p [] [] h k = refl
span-append p [] (c ∷ s) h k = rw k refl
span-append p (c ∷ w) s (x, h) k = rw (x, span-append p w s h k) refl

pub cut_at-append : (c : ℕ) (w s : Str) → Lacks c w → cut_at c (w ++ c ∷ s) ≡ some (w, s)
unfolding cut_at
cut_at-append c [] s h = ground arith
cut_at-append c (d ∷ w) s (n, h) = ground (arith, cut_at-append c w s h)

pub cut_at_of_Lacks : (c : ℕ) (w : Str) → Lacks c w → cut_at c w ≡ none
unfolding cut_at
cut_at_of_Lacks c [] h = refl
cut_at_of_Lacks c (d ∷ w) (n, h) = ground (arith, cut_at_of_Lacks c w h)

pub word-space : (c : ℕ) → is_word c ≡ true → is_space c ≡ false
unfolding is_word is_space
word-space c h = ground arith

pub Chars-ne : (p : ℕ → Bool) (c : ℕ) (s : Str) → p c ≡ false → Chars p s → Lacks c s
Chars-ne p c [] h k = tt
Chars-ne p c (d ∷ s) h (x, k) = ((λ e. cc (e, h, x)), Chars-ne p c s h k)

pub Stops-of_word : (s : Str) → Chars is_word s → Stops is_space s
Stops-of_word [] h = tt
Stops-of_word (c ∷ s) (x, h) = word-space c x

pub trim_start_of_Stops : (s : Str) → Stops is_space s → trim_start s ≡ s
unfolding trim_start
trim_start_of_Stops [] h = refl
trim_start_of_Stops (c ∷ s) h = rw h refl

pub trim_start-append : (b s : Str) → Chars is_space b → Stops is_space s → trim_start (b ++ s) ≡ s
unfolding trim_start
trim_start-append [] s h k = trim_start_of_Stops s k
trim_start-append (c ∷ b) s (x, h) k = rw x (trim_start-append b s h k)

-- Nothing is cut behind a character that is no blank.
trim_start_keeps :
    (u v : Str) (c : ℕ) → is_space c ≡ false → (w : Str) × (trim_start (u ++ c ∷ v) ≡ w ++ c ∷ v)
unfolding trim_start
trim_start_keeps [] v c h = ([], rw h refl)
trim_start_keeps (d ∷ u) v c h = elim (Bool-cases (is_space d)) [
  | inl blank ↦ let (w, e) = trim_start_keeps u v c h in (w, rw blank e)
  | inr ink ↦ (d ∷ u, rw ink refl)
]

Chars-reverse : (p : ℕ → Bool) (s : Str) → Chars p s → Chars p (reverse s)
Chars-reverse p [] h = tt
Chars-reverse p (c ∷ s) (x, h) =
    rw (reverse-cons c s)
      (All-append (λ d. p d ≡ true) (reverse s) (c ∷ []) (Chars-reverse p s h) (x, tt))

pub trim_end-append : (w b : Str) → Chars is_word w → Chars is_space b → trim_end (w ++ b) ≡ w
unfolding trim_end
trim_end-append w b h k =
    rw
      (
        reverse-append w b,
        trim_start-append (reverse b) (reverse w) (Chars-reverse is_space b k)
            (Stops-of_word (reverse w) (Chars-reverse is_word w h)),
        reverse-reverse w,
      )
      refl

pub trim_end_keeps :
    (x y : Str) (c : ℕ) → is_space c ≡ false → (z : Str) × (trim_end (x ++ c ∷ y) ≡ x ++ c ∷ z)
unfolding trim_end
trim_end_keeps x y c h =
    let (w, e) = trim_start_keeps (reverse y) (reverse x) c h in
    (
      reverse w,
      rw
          (
            reverse-append x (c ∷ y),
            reverse-cons c y,
            append_assoc (reverse y) (c ∷ []) (reverse x),
            e,
            reverse-append w (c ∷ reverse x),
            reverse-cons c (reverse x),
            reverse-reverse x,
            append_assoc x (c ∷ []) (reverse w),
          )
          refl,
    )
