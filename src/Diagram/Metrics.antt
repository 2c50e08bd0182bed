-- ===== src/Diagram/Metrics.antt =====
-- Type metrics and word wrap of scripts/diagrams/diagram-kit.mjs.
--
-- Lengths are counted in grains, 2400 to a pixel: hundredths, quarters and thirds of a pixel are
-- whole numbers of grains. Font sizes are whole, positive numbers of pixels.
pub mod Wrap
pub mod Rewrap
mod Tests
use mathlib.Core.List.{flat_map}
use Prim.Native.Nat.{max}
use foundry_capital_markets.Prelude.{
  ℕ, zero, suc, ◌+◌, ◌-◌, ◌*◌, ◌/◌, ◌%◌, ◌^◌, true, false, List, [], ◌∷◌, ◌++◌, ltb, leb, ◌==◌,
  if◌then◌else◌, length, take, drop, is_empty, Str, split, newline,
}

abbrev pub grains : ℕ
grains = 2400

abbrev pub cent : ℕ
cent = 24

-- `FONT`.
abbrev pub hand : ℕ
hand = 1

abbrev pub helvetica : ℕ
helvetica = 2

abbrev pub mono : ℕ
mono = 3

-- `LINE_HEIGHT`: 1.25 of the font size.
abbrev pub line_height : ℕ
line_height = 3000

-- `BOX_PAD`.
abbrev pub box_pad : ℕ
box_pad = 16 * grains

-- `CHAR_RATIO[fontFamily] ?? 0.55`, for one pixel of font size.
unfoldable pub char_ratio : ℕ → ℕ
char_ratio family =
    if family == hand then 58 * cent else if family == mono then 62 * cent else 55 * cent

unfoldable pub char_width : ℕ → ℕ → ℕ
unfolding char_ratio
char_width font_size family = font_size * char_ratio family

unfoldable pub measure_line : Str → ℕ → ℕ → ℕ
unfolding char_width
measure_line line font_size family = length line * char_width font_size family

-- `while (rest.length > maxChars)`: the pieces pushed, and the rest. Each round takes at least one
-- character, so the length of the word is fuel enough.
unfoldable pub hard_break : ℕ → ℕ → Str → List Str × Str
hard_break zero m rest = ([], rest)
hard_break (suc fuel) m rest = elim (ltb m (length rest)) [
  | true ↦ let more = hard_break fuel m (drop m rest) in ((take m rest ∷ more.0), more.1)
  | false ↦ ([], rest)
]

unfoldable pub candidate : Str → Str → Str
candidate line word = if is_empty line then word else line ++ b' ' ∷ word

-- `if (line.length > 0) out.push(line)`
unfoldable pub flush : Str → List Str
flush line = if is_empty line then [] else line ∷ []

-- The loop over the words of a paragraph, from the current line.
unfoldable pub wrap_words : ℕ → Str → List Str → List Str
unfolding candidate flush hard_break
wrap_words m line [] = line ∷ []
wrap_words m line (word ∷ words) = elim (leb (length (candidate line word)) m) [
  | true ↦ wrap_words m (candidate line word) words
  | false ↦
      let broken = hard_break (length word) m word in
      flush line ++ (broken.0 ++ wrap_words m broken.1 words)
]

unfoldable pub wrap_paragraph : ℕ → Str → List Str
unfolding wrap_words
wrap_paragraph m paragraph =
    if is_empty paragraph then [] ∷ [] else wrap_words m [] (split b' ' paragraph)

-- The loop over the paragraphs.
unfoldable pub wrap_lines : ℕ → Str → List Str
unfolding wrap_paragraph flat_map
wrap_lines m text = flat_map (wrap_paragraph m) (split newline text)

-- JavaScript's numbers are doubles. A positive one is given here by how often it holds 2^-80: what
-- follows is the double nearest to `n / d`, which ends in an even digit where two are as near.
unfoldable pub unit : ℕ
unit = 0x100000000000000000000

unfoldable pub log2 : ℕ → ℕ → ℕ
log2 zero n = 0
log2 (suc fuel) n = elim (ltb n 2) [ true ↦ 0 | false ↦ 1 + log2 fuel (n / 2) ]

unfoldable pub half_even : ℕ → ℕ → ℕ
half_even a b =
    let q = a / b in
    let twice = 2 * (a % b) in if ltb twice b then q else if ltb b twice then q + 1 else q + q % 2

unfoldable pub nearest : ℕ → ℕ → ℕ
unfolding unit log2 half_even
nearest n d = let ulp = 2 ^ (log2 200 (n * unit / d) - 52) in half_even (n * unit) (d * ulp) * ulp

-- `charWidth`, as the product of two doubles.
unfoldable pub double_width : ℕ → ℕ → ℕ
unfolding nearest char_ratio unit
double_width font_size family = nearest (font_size * nearest (char_ratio family) grains) unit

-- `Math.floor(maxWidth / cw)`, of a width that is the double nearest to it. The quotient of doubles is
-- so near to the exact one that their floors can only differ where the width holds a whole number of
-- characters.
unfoldable pub floored : ℕ → ℕ → ℕ → ℕ
unfolding nearest double_width char_width unit
floored max_width font_size family = elim (max_width % char_width font_size family) [
  | zero ↦ nearest (nearest max_width grains) (double_width font_size family) / unit
  | suc _ ↦ max_width / char_width font_size family
]

-- `Math.max(1, Math.floor(maxWidth / cw))`. A negative width is given as 0, of which the floor is
-- below 1 too.
unfoldable pub max_chars : ℕ → ℕ → ℕ → ℕ
unfolding floored
max_chars max_width font_size family = max 1 (floored max_width font_size family)

unfoldable pub wrap_text : Str → ℕ → ℕ → ℕ → List Str
unfolding wrap_lines max_chars
wrap_text text font_size max_width family = wrap_lines (max_chars max_width font_size family) text

-- The greatest line, as `reduce` finds it.
unfoldable pub widest : ℕ → ℕ → List Str → ℕ
unfolding measure_line
widest font_size family [] = 0
widest font_size family (l ∷ ls) =
    max (measure_line l font_size family) (widest font_size family ls)

pub record Size : Type 0 where
  pub width : ℕ
  pub height : ℕ

unfoldable pub text_block_size : List Str → ℕ → ℕ → Size
unfolding widest
text_block_size lines font_size family = record {
  width = widest font_size family lines;
  height = length lines * font_size * line_height;
}
