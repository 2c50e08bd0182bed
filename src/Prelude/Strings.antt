-- ===== src/Prelude/Strings.antt =====
-- JavaScript strings as lists of UTF-16 code units, with the methods that the program calls.
use Prim.Native.Nat.{ℕ}
use Prim.Native.Char.{code}
use Prim.Native.String.{String}
use mathlib.Core.Path.{◌≡◌, refl, ap, ◌∙◌}
use mathlib.Core.Logic.{◌↔◌, ◌≢◌}
use mathlib.Core.Bool.{Bool, true, false, ◌&&◌, ◌||◌}
use mathlib.Core.Option.{Option, none, some}
use mathlib.Core.List.{List, [], ◌∷◌, ◌++◌, reverse, append-nil, append_assoc}
use native.Mathlib.Omega.{arith}
use foundry_capital_markets.Prelude.Tests.{◌==◌, leb, if◌then◌else◌}
use foundry_capital_markets.Prelude.Lists.{All, All-append}

abbrev pub Str : Type 0
Str = List ℕ

-- The code units of a literal; every character of the program's literals is one unit.
abbrev pub codes : String → Str
codes String.[] = []
codes (String.◌∷◌ c s) = code c ∷ codes s

infix 50 ◌===◌
unfoldable pub ◌===◌ : Str → Str → Bool
[] === [] = true
[] === (d ∷ t) = false
(c ∷ s) === [] = false
(c ∷ s) === (d ∷ t) = (c == d) && (s === t)

pub ===_iff : (s t : Str) → ((s === t) ≡ true) ↔ (s ≡ t)
unfolding ◌===◌
===_iff [] [] = ground arith
===_iff [] (d ∷ t) = ground arith
===_iff (c ∷ s) [] = ground arith
===_iff (c ∷ s) (d ∷ t) = ground (arith, ===_iff s t)

pub ===_refl : (s : Str) → (s === s) ≡ true
===_refl s = (===_iff s s).1 refl

pub ===_ne : (s t : Str) → (s === t) ≡ false → s ≢ t
===_ne s t h = ground (arith, ===_iff s t)

-- `s.startsWith(p)`, and what follows `p` where it does.
unfoldable pub strip_prefix : Str → Str → Option Str
strip_prefix [] s = some s
strip_prefix (c ∷ p) [] = none
strip_prefix (c ∷ p) (d ∷ s) = let rest = strip_prefix p s in if c == d then rest else none

unfoldable pub starts_with : Str → Str → Bool
starts_with s [] = true
starts_with [] (c ∷ p) = false
starts_with (d ∷ s) (c ∷ p) = (c == d) && starts_with s p

-- `s.includes(p)`.
unfoldable pub includes : Str → Str → Bool
unfolding starts_with
includes [] p = starts_with [] p
includes (c ∷ s) p = starts_with (c ∷ s) p || includes s p

unfoldable pub ends_with : Str → Str → Bool
unfolding starts_with
ends_with s p = starts_with (reverse s) (reverse p)

-- The characters that `trim` and `\s` take for white space.
unfoldable pub is_space : ℕ → Bool
is_space c =
    (leb 9 c && leb c 13)
    || c == 32
    || c == 0xa0
    || c == 0x1680
    || (leb 0x2000 c && leb c 0x200a)
    || c == 0x2028
    || c == 0x2029
    || c == 0x202f
    || c == 0x205f
    || c == 0x3000
    || c == 0xfeff

-- The characters of `\w`.
unfoldable pub is_word : ℕ → Bool
is_word c =
    (leb b'0' c && leb c b'9')
    || (leb b'A' c && leb c b'Z')
    || (leb b'a' c && leb c b'z')
    || c == b'_'

unfoldable pub trim_start : Str → Str
unfolding is_space
trim_start [] = []
trim_start (c ∷ s) = let rest = trim_start s in if is_space c then rest else c ∷ s

unfoldable pub trim_end : Str → Str
unfolding trim_start
trim_end s = reverse (trim_start (reverse s))

unfoldable pub trim : Str → Str
unfolding trim_start trim_end
trim s = trim_end (trim_start s)

-- `s.split(sep)` at a one-unit separator: never empty.
unfoldable pub split_from : ℕ → Str → Str → List Str
split_from sep cur [] = cur ∷ []
split_from sep cur (c ∷ s) = elim (c == sep) [
  | true ↦ cur ∷ split_from sep [] s
  | false ↦ split_from sep (cur ++ c ∷ []) s
]

unfoldable pub split : ℕ → Str → List Str
unfolding split_from
split sep s = split_from sep [] s

-- `parts.join(sep)`.
unfoldable pub join : Str → List Str → Str
join sep [] = []
join sep (p ∷ []) = p
join sep (p ∷ q ∷ ps) = p ++ (sep ++ join sep (q ∷ ps))

-- What a template makes of its parts.
abbrev pub cat : List Str → Str
cat [] = []
cat (s ∷ ss) = s ++ cat ss

abbrev pub newline : ℕ
newline = 10

-- A text without a given character.
abbrev pub Lacks : ℕ → Str → Type 0
Lacks c = All (λ d. d ≢ c)

split_from-Lacks : (sep : ℕ) (cur s : Str) → Lacks sep cur → All (Lacks sep) (split_from sep cur s)
unfolding split_from
split_from-Lacks sep cur [] h = (h, tt)
split_from-Lacks sep cur (c ∷ s) h = grind (
  arith,
  split_from-Lacks sep [] s,
  split_from-Lacks sep (cur ++ c ∷ []) s,
  All-append (λ (d : ℕ). d ≢ sep) cur (c ∷ []),
)

-- No part of a split holds the separator.
pub split-Lacks : (sep : ℕ) (s : Str) → All (Lacks sep) (split sep s)
unfolding split
split-Lacks sep s = split_from-Lacks sep [] s tt

module _ (P : ℕ → Type 0) where
  split_from-All :
      (sep : ℕ) (cur s : Str) → All P cur → All P s → All (All P) (split_from sep cur s)
  unfolding split_from
  split_from-All sep cur [] h k = (h, tt)
  split_from-All sep cur (c ∷ s) h (p, k) = ground (
    arith,
    split_from-All sep [] s tt k,
    split_from-All sep (cur ++ c ∷ []) s (All-append P cur (c ∷ []) h (p, tt)) k,
  )

  pub split-All : (sep : ℕ) (s : Str) → All P s → All (All P) (split sep s)
  unfolding split
  split-All sep s h = split_from-All sep [] s tt h

split_from-append :
    (sep : ℕ) (cur p s : Str)
    → Lacks sep p
    → split_from sep cur (p ++ s) ≡ split_from sep (cur ++ p) s
unfolding split_from
split_from-append sep cur [] s h = rw append-nil
split_from-append sep cur (c ∷ p) s (n, h) =
    ground (arith, split_from-append sep (cur ++ c ∷ []) p s h, append_assoc cur (c ∷ []) p)

split_from_of_Lacks : (sep : ℕ) (cur s : Str) → Lacks sep s → split_from sep cur s ≡ (cur ++ s) ∷ []
unfolding split_from
split_from_of_Lacks sep cur [] h = rw append-nil
split_from_of_Lacks sep cur (c ∷ s) (n, h) =
    ground (arith, split_from_of_Lacks sep (cur ++ c ∷ []) s h, append_assoc cur (c ∷ []) s)

split_from_at : (sep : ℕ) (cur s : Str) → split_from sep cur (sep ∷ s) ≡ cur ∷ split_from sep [] s
unfolding split_from
split_from_at sep cur s = ground arith

-- A text without the separator is one part.
pub split_of_Lacks : (sep : ℕ) (s : Str) → Lacks sep s → split sep s ≡ s ∷ []
unfolding split
split_of_Lacks sep s h = split_from_of_Lacks sep [] s h

-- Splitting what was joined gives the parts back, if no part holds the separator.
pub split-join :
    (sep : ℕ) (p : Str) (ps : List Str)
    → All (Lacks sep) (p ∷ ps)
    → split sep (join (sep ∷ []) (p ∷ ps)) ≡ p ∷ ps
unfolding split join
split-join sep p [] (h, _) = split_from_of_Lacks sep [] p h
split-join sep p (q ∷ ps) (h, hs) =
    split_from-append sep [] p (sep ∷ join (sep ∷ []) (q ∷ ps)) h
    ∙ split_from_at sep p _
    ∙ ap (λ t. p ∷ t) (split-join sep q ps hs)

-- The longest run of characters that a test accepts, and what is behind it.
unfoldable pub span : (ℕ → Bool) → Str → Str × Str
span p [] = ([], [])
span p (c ∷ s) = let rest = span p s in if p c then (c ∷ rest.0, rest.1) else ([], c ∷ s)

-- The part before the first character that is `c`, and what is behind that character.
unfoldable pub cut_at : ℕ → Str → Option (Str × Str)
cut_at c [] = none
cut_at c (d ∷ s) =
    let rest = cut_at c s in
    if d == c then some ([], s) else elim rest [ none ↦ none | some (a, b) ↦ some (d ∷ a, b) ]
