-- ===== src/Diagram/Svg/Escaping.antt =====
-- `escapeXml` against the character references of XML.
use mathlib.Core.List.{flat_map}
use foundry_capital_markets.Prelude.{
  ℕ, zero, suc, ◌-◌, ◌≡◌, refl, ap, ◌∙◌, inl, inr, ◌||◌, Option, none, some, List, [], ◌∷◌, ◌++◌,
  append_assoc, arith, ◌==◌, if◌then◌else◌, Bool-cases, length, Str, codes, starts_with,
}
use foundry_capital_markets.Diagram.Svg.{replace_char, escape_xml}

-- What a character is written as.
abbrev shown : ℕ → Str
shown c =
    if c == b'&'
    then codes "&amp;"
    else if c == b'<'
    then codes "&lt;"
    else if c == b'>'
    then codes "&gt;"
    else if c == b'"'
    then codes "&quot;"
    else c ∷ []

-- The predefined references of XML, at the `&` that begins them.
abbrev pub references : List (Str × ℕ)
references =
    (codes "&amp;", b'&')
    ∷ (codes "&lt;", b'<')
    ∷ (codes "&gt;", b'>')
    ∷ (codes "&quot;", b'"')
    ∷ []

-- The character of the first reference that a text begins with, and the reference's length.
pub reference_at : List (Str × ℕ) → Str → Option (ℕ × ℕ)
unfolding starts_with
reference_at [] s = none
reference_at ((r, c) ∷ rs) s =
    let rest = reference_at rs s in if starts_with s r then some (c, length r) else rest

-- An XML reader: references are replaced, other characters stand for themselves, and a bare `&`, `<`
-- or `"` is an error. The first argument counts the characters left of a reference that was read.
pub read_xml : ℕ → Str → Option Str
unfolding reference_at
read_xml skip [] = some []
read_xml (suc skip) (c ∷ s) = read_xml skip s
read_xml zero (c ∷ s) =
    if c == b'&'
    then elim (reference_at references (c ∷ s)) [
      | none ↦ none
      | some (d, n) ↦ elim (read_xml (n - 1) s) [ none ↦ none | some t ↦ some (d ∷ t) ]
    ]
    else if c == b'<' || c == b'"'
    then none
    else elim (read_xml zero s) [ none ↦ none | some t ↦ some (c ∷ t) ]

replace_char-append :
    (c : ℕ) (by s t : Str) → replace_char c by (s ++ t) ≡ replace_char c by s ++ replace_char c by t
unfolding replace_char flat_map
replace_char-append c by [] t = refl
replace_char-append c by (d ∷ s) t = rw (replace_char-append c by s t, append_assoc)

escape_xml-append : (s t : Str) → escape_xml (s ++ t) ≡ escape_xml s ++ escape_xml t
unfolding escape_xml
escape_xml-append s t =
    rw
      (
        replace_char-append b'&' (codes "&amp;") s t,
        replace_char-append b'<' (codes "&lt;") _ _,
        replace_char-append b'>' (codes "&gt;") _ _,
        replace_char-append b'"' (codes "&quot;") _ _,
      )
      refl

escape_xml_one : (c : ℕ) → escape_xml (c ∷ []) ≡ shown c
unfolding escape_xml replace_char flat_map
escape_xml_one c = ground arith

escape_xml-cons : (c : ℕ) (s : Str) → escape_xml (c ∷ s) ≡ shown c ++ escape_xml s
escape_xml-cons c s = escape_xml-append (c ∷ []) s ∙ ap (λ t. t ++ escape_xml s) (escape_xml_one c)

read_xml-shown :
    (c : ℕ) (s t : Str) → read_xml 0 s ≡ some t → read_xml 0 (shown c ++ s) ≡ some (c ∷ t)
unfolding read_xml reference_at starts_with
read_xml-shown c s t h = elim (Bool-cases (c == b'&')) [
  | inl amp ↦ rw amp (rw (h, read_xml) (ground arith))
  | inr c1 ↦ elim (Bool-cases (c == b'<')) [
    | inl less ↦ rw (c1, less) (rw (h, read_xml) (ground arith))
    | inr c2 ↦ elim (Bool-cases (c == b'>')) [
      | inl more ↦ rw (c1, c2, more) (rw (h, read_xml) (ground arith))
      | inr c3 ↦ elim (Bool-cases (c == b'"')) [
        | inl quote ↦ rw (c1, c2, c3, quote) (rw (h, read_xml) (ground arith))
        | inr c4 ↦ rw (c1, c2, c3, c4) (simp (c1, c2, c4, h) refl)
      ]
    ]
  ]
]

-- The four replacements undo each other's marks in no case: a reader of XML that takes the escaped
-- text gets the text itself, and meets no bare `&`, `<` or `"`, which would be an error.
pub read_xml-escape_xml : (s : Str) → read_xml 0 (escape_xml s) ≡ some s
read_xml-escape_xml [] = unfold read_xml escape_xml replace_char flat_map in refl
read_xml-escape_xml (c ∷ s) =
    rw (escape_xml-cons c s) (read_xml-shown c (escape_xml s) s (read_xml-escape_xml s))
