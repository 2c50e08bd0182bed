-- ===== src/Diagram/Metrics/Tests.antt =====
-- The wrap laws at concrete texts.
use foundry_capital_markets.Prelude.{
  ◌*◌, ◌≡◌, refl, [], ◌∷◌, arith, length, Str, codes, split, join, newline,
}
use foundry_capital_markets.Diagram.Metrics.{
  helvetica, grains, cent, char_ratio, char_width, unit, log2, half_even, nearest, double_width,
  floored, max_chars, wrap_lines,
}
use foundry_capital_markets.Diagram.Metrics.Rewrap.{
  ink, ink_all, ink-wrap_lines, length-wrap_lines-wrap_lines,
}

abbrev sample : Str
sample = codes "private  endpoints only"

wrapped : wrap_lines 9 sample ≡ codes "private " ∷ codes "endpoints" ∷ codes "only" ∷ []
unfolding wrap_lines split
wrapped = refl

-- A word longer than the line is cut.
cut :
    wrap_lines 4 (codes "ab cdefghijk") ≡ codes "ab" ∷ codes "cdef" ∷ codes "ghij" ∷ codes "k" ∷ []
unfolding wrap_lines split
cut = refl

-- A width that divides evenly, and one whose quotient of doubles falls short of the whole number.
even : max_chars (88 * grains) 16 helvetica ≡ 10
unfolding max_chars floored nearest half_even log2 unit double_width char_width char_ratio
even = refl

short : max_chars (33 * grains) 1 helvetica ≡ 59
unfolding max_chars floored nearest half_even log2 unit double_width char_width char_ratio
short = refl

-- Four characters of 28 pixels, in a width that has been made for them.
unsized : max_chars (6160 * cent) 28 helvetica ≡ 3
unfolding max_chars floored nearest half_even log2 unit double_width char_width char_ratio
unsized = refl

ink-wrap_lines_example : ink_all (wrap_lines 4 sample) ≡ ink sample
ink-wrap_lines_example = ink-wrap_lines 4 sample

length-wrap_lines-wrap_lines_example :
    length (wrap_lines 4 (join (newline ∷ []) (wrap_lines 4 sample))) ≡ length (wrap_lines 4 sample)
length-wrap_lines-wrap_lines_example = length-wrap_lines-wrap_lines 4 sample (omega arith)
