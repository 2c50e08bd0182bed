-- ===== src/Diagram/Metrics/Rewrap.antt =====
-- Wrapping keeps the text's visible characters, and wrapping again makes no further lines.
use mathlib.Core.List.{flat_map}
use foundry_capital_markets.Diagram.Metrics.Wrap.{
  Fits, wrap_words_near, wrap_words_far, wrap_lines-Fits, wrap_lines-Lacks,
}
use foundry_capital_markets.Prelude.{
  ℕ, zero, suc, ◌+◌, ◌≤◌, ◌≡◌, refl, sym, ap, ◌∙◌, ◌≢◌, inl, inr, Bool, true, false, not, ◌||◌,
  List, [], ◌∷◌, ◌++◌, append-nil, append_assoc, arith, leb, ◌==◌, Bool-cases, length, take, drop,
  keep, length-append, take-append-drop, All, keep-append, Str, split_from, split, join, newline,
  Lacks, split-join,
}
use foundry_capital_markets.Diagram.Metrics.{
  hard_break, candidate, flush, wrap_words, wrap_paragraph, wrap_lines,
}

-- Neither a space nor a line break.
abbrev pub is_ink : ℕ → Bool
is_ink c = not (c == b' ' || c == newline)

abbrev pub ink : Str → Str
ink = keep is_ink

abbrev pub ink_all : List Str → Str
ink_all [] = []
ink_all (l ∷ ls) = ink l ++ ink_all ls

ink_all-append : (ls ms : List Str) → ink_all (ls ++ ms) ≡ ink_all ls ++ ink_all ms
ink_all-append [] ms = refl
ink_all-append (l ∷ ls) ms = simp (ink_all-append ls ms, append_assoc)

ink_all-split_from :
    (sep : ℕ) (cur s : Str) → is_ink sep ≡ false → ink_all (split_from sep cur s) ≡ ink cur ++ ink s
unfolding split_from keep
ink_all-split_from sep cur [] h = refl
ink_all-split_from sep cur (c ∷ s) h = ground (
  arith,
  ink_all-split_from sep [] s h,
  ink_all-split_from sep (cur ++ c ∷ []) s h,
  keep-append is_ink cur (c ∷ []),
  append_assoc (ink cur) (ink (c ∷ [])) (ink s),
)

ink_all-hard_break :
    (fuel m : ℕ) (word : Str)
    → ink_all (hard_break fuel m word).0 ++ ink (hard_break fuel m word).1 ≡ ink word
unfolding hard_break
ink_all-hard_break zero m word = refl
ink_all-hard_break (suc fuel) m word = ground (
  arith,
  ink_all-hard_break fuel m (drop m word),
  append_assoc (ink (take m word)) (ink_all (hard_break fuel m (drop m word)).0)
      (ink (hard_break fuel m (drop m word)).1),
  keep-append is_ink (take m word) (drop m word),
  take-append-drop m word,
)

ink-flush : (line : Str) → ink_all (flush line) ≡ ink line
unfolding flush
ink-flush [] = unfold keep in refl
ink-flush (c ∷ line) = append-nil _

ink-candidate : (line word : Str) → ink (candidate line word) ≡ ink line ++ ink word
unfolding candidate
ink-candidate [] word = unfold keep in refl
ink-candidate (c ∷ line) word =
    keep-append is_ink (c ∷ line) (b' ' ∷ word)
    ∙ ap (λ t. ink (c ∷ line) ++ t) (unfold keep in refl)

ink_all-wrap_words :
    (m : ℕ) (line : Str) (words : List Str)
    → ink_all (wrap_words m line words) ≡ ink line ++ ink_all words
ink_all-wrap_words m line [] = unfold wrap_words in refl
ink_all-wrap_words m line (word ∷ words) =
    elim (Bool-cases (leb (length (candidate line word)) m)) [
      | inl near ↦ rw (wrap_words_near m line word words near) (
          ink_all-wrap_words m (candidate line word) words
          ∙ ap (λ t. t ++ ink_all words) (ink-candidate line word)
          ∙ append_assoc (ink line) (ink word) (ink_all words))
      | inr far ↦
          rw
            (
              wrap_words_far m line word words far,
              ink_all-append (flush line),
              ink-flush,
              ink_all-append (hard_break (length word) m word).0,
              ink_all-wrap_words m (hard_break (length word) m word).1 words,
            )
            (ap (λ t. ink line ++ t)
              (sym (
                  append_assoc (ink_all (hard_break (length word) m word).0)
                    (ink (hard_break (length word) m word).1) (ink_all words))
                ∙ ap (λ t. t ++ ink_all words) (ink_all-hard_break (length word) m word)))
    ]

ink_all-wrap_paragraph : (m : ℕ) (p : Str) → ink_all (wrap_paragraph m p) ≡ ink p
unfolding wrap_paragraph
ink_all-wrap_paragraph m [] = unfold keep in refl
ink_all-wrap_paragraph m (c ∷ p) =
    ink_all-wrap_words m [] (split b' ' (c ∷ p))
    ∙ unfold split keep in ink_all-split_from b' ' [] (c ∷ p) refl

ink_all-flat_map : (m : ℕ) (ps : List Str) → ink_all (flat_map (wrap_paragraph m) ps) ≡ ink_all ps
unfolding flat_map
ink_all-flat_map m [] = refl
ink_all-flat_map m (p ∷ ps) =
    ink_all-append (wrap_paragraph m p) _
    ∙ rw (ink_all-wrap_paragraph m p, ink_all-flat_map m ps) refl

-- Wrapping loses no visible character and changes none: read on, the lines hold those of the text
-- in their order, whatever the width.
pub ink-wrap_lines : (m : ℕ) (text : Str) → ink_all (wrap_lines m text) ≡ ink text
unfolding wrap_lines
ink-wrap_lines m text =
    ink_all-flat_map m (split newline text)
    ∙ unfold split keep in ink_all-split_from newline [] text refl

append-ne-nil : {A : Type 0} (xs ys : List A) → xs ≢ [] → xs ++ ys ≢ []
append-ne-nil [] ys h = absurd (h refl)
append-ne-nil (x ∷ xs) ys h = cc

append-ne-nil_right : {A : Type 0} (xs ys : List A) → ys ≢ [] → xs ++ ys ≢ []
append-ne-nil_right [] ys h = h
append-ne-nil_right (x ∷ xs) ys h = cc

wrap_words-ne-nil : (m : ℕ) (line : Str) (words : List Str) → wrap_words m line words ≢ []
wrap_words-ne-nil m line [] = unfold wrap_words in cc
wrap_words-ne-nil m line (w ∷ ws) = elim (Bool-cases (leb (length (candidate line w)) m)) [
  | inl near ↦ rw (wrap_words_near m line w ws near) (wrap_words-ne-nil m (candidate line w) ws)
  | inr far ↦ rw (wrap_words_far m line w ws far) (
      append-ne-nil_right (flush line) _ (
        append-ne-nil_right (hard_break (length w) m w).0 _
          (wrap_words-ne-nil m (hard_break (length w) m w).1 ws)))
]

wrap_paragraph-ne-nil : (m : ℕ) (p : Str) → wrap_paragraph m p ≢ []
unfolding wrap_paragraph
wrap_paragraph-ne-nil m [] = cc
wrap_paragraph-ne-nil m (c ∷ p) = wrap_words-ne-nil m [] (split b' ' (c ∷ p))

split_from-ne-nil : (sep : ℕ) (cur s : Str) → split_from sep cur s ≢ []
unfolding split_from
split_from-ne-nil sep cur [] = cc
split_from-ne-nil sep cur (c ∷ s) = ground (arith, split_from-ne-nil sep (cur ++ c ∷ []) s)

flat_map-ne-nil : (m : ℕ) (ps : List Str) → ps ≢ [] → flat_map (wrap_paragraph m) ps ≢ []
unfolding flat_map
flat_map-ne-nil m [] h = absurd (h refl)
flat_map-ne-nil m (p ∷ ps) h = append-ne-nil (wrap_paragraph m p) _ (wrap_paragraph-ne-nil m p)

pub wrap_lines-ne-nil : (m : ℕ) (text : Str) → wrap_lines m text ≢ []
unfolding wrap_lines split
wrap_lines-ne-nil m text =
    flat_map-ne-nil m (split newline text) (split_from-ne-nil newline [] text)

-- The characters that the words take, each with a separator.
budget : List Str → ℕ
budget [] = 0
budget (w ∷ ws) = suc (length w) + budget ws

budget-split_from :
    (sep : ℕ) (cur s : Str) → budget (split_from sep cur s) ≡ suc (length cur + length s)
unfolding split_from budget
budget-split_from sep cur [] = omega arith
budget-split_from sep cur (c ∷ s) = ground (
  arith,
  budget-split_from sep [] s,
  budget-split_from sep (cur ++ c ∷ []) s,
  length-append cur (c ∷ []),
)

length-candidate-le :
    (line word : Str) → length (candidate line word) ≤ length line + suc (length word)
unfolding candidate
length-candidate-le [] word = omega arith
length-candidate-le (c ∷ line) word = omega (arith, length-append line (b' ' ∷ word))

le→leb : (a b : ℕ) → a ≤ b → leb a b ≡ true
le→leb a b h = ground arith

length-wrap_words :
    (m : ℕ) (line : Str) (words : List Str)
    → length line + budget words ≤ m
    → length (wrap_words m line words) ≡ 1
unfolding budget
length-wrap_words m line [] h = unfold wrap_words in refl
length-wrap_words m line (w ∷ ws) h =
    let short = length-candidate-le line w in
    rw (wrap_words_near m line w ws (le→leb _ _ (omega arith)))
      (length-wrap_words m (candidate line w) ws (omega arith))

length-wrap_words_of_start :
    (m : ℕ) (words : List Str) → budget words ≤ suc m → length (wrap_words m [] words) ≡ 1
unfolding budget candidate
length-wrap_words_of_start m [] h = unfold wrap_words in refl
length-wrap_words_of_start m (w ∷ ws) h =
    rw (wrap_words_near m [] w ws (le→leb (length w) m (omega arith)))
      (length-wrap_words m w ws (omega arith))

-- A paragraph that fits the width becomes one line.
length-wrap_paragraph : (m : ℕ) (p : Str) → Fits m p → length (wrap_paragraph m p) ≡ 1
unfolding wrap_paragraph
length-wrap_paragraph m [] h = refl
length-wrap_paragraph m (c ∷ p) h =
    length-wrap_words_of_start m (split b' ' (c ∷ p))
      (unfold split in omega (arith, budget-split_from b' ' [] (c ∷ p)))

length-flat_map :
    (m : ℕ) (ps : List Str) → All (Fits m) ps → length (flat_map (wrap_paragraph m) ps) ≡ length ps
unfolding flat_map
length-flat_map m [] h = refl
length-flat_map m (p ∷ ps) (fit, fits) = omega (
  arith,
  length-append (wrap_paragraph m p) (flat_map (wrap_paragraph m) ps),
  length-wrap_paragraph m p fit,
  length-flat_map m ps fits,
)

-- Lines that fit and hold no line break, written to one text and wrapped again, are as many lines.
pub length-wrap_lines-join :
    (m : ℕ) (l : Str) (ls : List Str)
    → All (Fits m) (l ∷ ls)
    → All (Lacks newline) (l ∷ ls)
    → length (wrap_lines m (join (newline ∷ []) (l ∷ ls))) ≡ length (l ∷ ls)
unfolding wrap_lines
length-wrap_lines-join m l ls fits clean =
    rw (split-join newline l ls clean) (length-flat_map m (l ∷ ls) fits)

-- Wrapping the lines of a wrapped text again, at the same width, makes as many lines as there were.
pub length-wrap_lines-wrap_lines :
    (m : ℕ) (text : Str)
    → 1 ≤ m
    → length (wrap_lines m (join (newline ∷ []) (wrap_lines m text))) ≡ length (wrap_lines m text)
length-wrap_lines-wrap_lines m text h =
    at_lines (wrap_lines m text) (wrap_lines-Fits m text h) (wrap_lines-Lacks m text)
      (wrap_lines-ne-nil m text)
  where
    at_lines :
        (ls : List Str)
        → All (Fits m) ls
        → All (Lacks newline) ls
        → ls ≢ []
        → length (wrap_lines m (join (newline ∷ []) ls)) ≡ length ls
    at_lines [] fits clean ne = absurd (ne refl)
    at_lines (l ∷ ls) fits clean ne = length-wrap_lines-join m l ls fits clean
