-- ===== src/Diagram/Metrics/Wrap.antt =====
-- Word wrap of diagram-kit.mjs: its lines fit, and hold the text.
use mathlib.Core.List.{flat_map}
use foundry_capital_markets.Prelude.{
  ℕ, zero, suc, ◌≤◌, ◌≡◌, ◌≢◌, inl, inr, true, false, List, [], ◌∷◌, ◌++◌, arith, leb, leb→le,
  Bool-cases, length, take, drop, take-append-drop, length-drop, length-take-le, All, All-append,
  All-append_left, All-append_right, All-of_In, Str, split, newline, Lacks, split-Lacks, split-All,
}
use foundry_capital_markets.Diagram.Metrics.{
  hard_break, candidate, flush, wrap_words, wrap_paragraph, wrap_lines,
}

-- A line of at most `m` characters.
abbrev pub Fits : ℕ → Str → Type 0
Fits m line = length line ≤ m

hard_break-Fits :
    (fuel m : ℕ) (word : Str)
    → 1 ≤ m
    → length word ≤ fuel
    → All (Fits m) (hard_break fuel m word).0 × Fits m (hard_break fuel m word).1
unfolding hard_break
hard_break-Fits zero m word h k = (tt, omega arith)
hard_break-Fits (suc fuel) m word h k =
    ground
      (arith, hard_break-Fits fuel m (drop m word) h, length-drop m word, length-take-le m word)

flush-Fits : (m : ℕ) (line : Str) → Fits m line → All (Fits m) (flush line)
unfolding flush
flush-Fits m [] h = tt
flush-Fits m (c ∷ line) h = (h, tt)

-- The two ways of the loop over the words.
pub wrap_words_near :
    (m : ℕ) (line word : Str) (words : List Str)
    → leb (length (candidate line word)) m ≡ true
    → wrap_words m line (word ∷ words) ≡ wrap_words m (candidate line word) words
unfolding wrap_words
wrap_words_near m line word words h = ground arith

pub wrap_words_far :
    (m : ℕ) (line word : Str) (words : List Str)
    → leb (length (candidate line word)) m ≡ false
    → wrap_words m line (word ∷ words)
      ≡ flush line
        ++ ((hard_break (length word) m word).0
            ++ wrap_words m (hard_break (length word) m word).1 words)
unfolding wrap_words
wrap_words_far m line word words h = ground arith

wrap_words-Fits :
    (m : ℕ) (line : Str) (words : List Str)
    → 1 ≤ m
    → Fits m line
    → All (Fits m) (wrap_words m line words)
wrap_words-Fits m line [] h k = unfold wrap_words in (k, tt)
wrap_words-Fits m line (word ∷ words) h k =
    elim (Bool-cases (leb (length (candidate line word)) m)) [
      | inl fits ↦
          rw (wrap_words_near m line word words fits)
            (wrap_words-Fits m (candidate line word) words h (leb→le _ _ fits))
      | inr wide ↦
          let broken = hard_break-Fits (length word) m word h (omega arith) in
          rw (wrap_words_far m line word words wide) (
            All-append (Fits m) (flush line) _ (flush-Fits m line k)
              (All-append (Fits m) _ _ broken.0 (wrap_words-Fits m _ words h broken.1)))
    ]

module _ {A B : Type 0} (Q : A → Type 0) (P : B → Type 0) (f : A → List B) where
  All-flat_map : (xs : List A) → All Q xs → ((a : A) → Q a → All P (f a)) → All P (flat_map f xs)
  unfolding flat_map
  All-flat_map [] h each = tt
  All-flat_map (x ∷ xs) (q, h) each = All-append P (f x) _ (each x q) (All-flat_map xs h each)

wrap_paragraph-Fits : (m : ℕ) (p : Str) → 1 ≤ m → All (Fits m) (wrap_paragraph m p)
unfolding wrap_paragraph
wrap_paragraph-Fits m [] h = (omega arith, tt)
wrap_paragraph-Fits m (c ∷ p) h = wrap_words-Fits m [] (split b' ' (c ∷ p)) h (omega arith)

-- No line is longer than the width, in characters, if that is not 0.
pub wrap_lines-Fits : (m : ℕ) (text : Str) → 1 ≤ m → All (Fits m) (wrap_lines m text)
unfolding wrap_lines
wrap_lines-Fits m text h =
    All-flat_map (λ _. Unit) (Fits m) (wrap_paragraph m) (split newline text)
      (All-of_In (λ _. Unit) _ (λ a i. tt)) (λ p _. wrap_paragraph-Fits m p h)

-- What holds of a space and of every character of a paragraph holds of every character of its
-- lines.
module _ (P : ℕ → Type 0) (space : P b' ') where
  All-drop : (n : ℕ) (s : Str) → All P s → All P (drop n s)
  All-drop n s h = All-append_right P (take n s) (drop n s) (rw (take-append-drop n s) h)

  All-take : (n : ℕ) (s : Str) → All P s → All P (take n s)
  All-take n s h = All-append_left P (take n s) (drop n s) (rw (take-append-drop n s) h)

  hard_break-All :
      (fuel m : ℕ) (word : Str)
      → All P word
      → All (All P) (hard_break fuel m word).0 × All P (hard_break fuel m word).1
  unfolding hard_break
  hard_break-All zero m word h = (tt, h)
  hard_break-All (suc fuel) m word h =
      ground (arith, hard_break-All fuel m (drop m word), All-drop m word, All-take m word)

  flush-All : (line : Str) → All P line → All (All P) (flush line)
  unfolding flush
  flush-All [] h = tt
  flush-All (c ∷ line) h = (h, tt)

  candidate-All : (line word : Str) → All P line → All P word → All P (candidate line word)
  unfolding candidate
  candidate-All [] word h k = k
  candidate-All (c ∷ line) word h k = All-append P (c ∷ line) (b' ' ∷ word) h (space, k)

  wrap_words-All :
      (m : ℕ) (line : Str) (words : List Str)
      → All P line
      → All (All P) words
      → All (All P) (wrap_words m line words)
  wrap_words-All m line [] h ks = unfold wrap_words in (h, tt)
  wrap_words-All m line (word ∷ words) h (k, ks) =
      elim (Bool-cases (leb (length (candidate line word)) m)) [
        | inl fits ↦
            rw (wrap_words_near m line word words fits)
              (wrap_words-All m (candidate line word) words (candidate-All line word h k) ks)
        | inr wide ↦
            let broken = hard_break-All (length word) m word k in
            rw (wrap_words_far m line word words wide) (
              All-append (All P) (flush line) _ (flush-All line h) (
                All-append (All P) _ _ broken.0
                  (wrap_words-All m (hard_break (length word) m word).1 words broken.1 ks)))
      ]

  wrap_paragraph-All : (m : ℕ) (p : Str) → All P p → All (All P) (wrap_paragraph m p)
  unfolding wrap_paragraph
  wrap_paragraph-All m [] h = (tt, tt)
  wrap_paragraph-All m (c ∷ p) h =
      wrap_words-All m [] (split b' ' (c ∷ p)) tt (split-All P b' ' (c ∷ p) h)

-- No line holds a line break.
pub wrap_lines-Lacks : (m : ℕ) (text : Str) → All (Lacks newline) (wrap_lines m text)
unfolding wrap_lines
wrap_lines-Lacks m text =
    All-flat_map (Lacks newline) (Lacks newline) (wrap_paragraph m) (split newline text)
      (split-Lacks newline text)
      (λ p h.
        wrap_paragraph-All (λ (d : ℕ). d ≢ newline) (λ (e : b' ' ≡ newline). absurd (omega arith)) m
          p h)
