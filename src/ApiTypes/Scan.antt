-- ===== src/ApiTypes/Scan.antt =====
-- The regular expressions of scripts/generate-api-types.mjs: matches at a place, and the loop
-- `while ((m = re.exec(src)) !== null)` over them.
pub mod Steps
use foundry_capital_markets.Prelude.{
  ℕ, zero, suc, ◌-◌, Bool, true, false, ◌||◌, Option, none, some, List, [], ◌∷◌, ◌++◌, ◌==◌,
  if◌then◌else◌, length, is_empty, All, Str, strip_prefix, is_space, is_word, span,
}

module _ {A : Type 0} where
  -- All matches of an expression, from left to right: each begins behind the one before. The second
  -- argument counts the characters left of a match that was found; a match gives what is behind it.
  unfoldable pub scan_all : (Str → Option (A × Str)) → ℕ → Str → List A
  scan_all match skip [] = []
  scan_all match (suc skip) (c ∷ s) = scan_all match skip s
  scan_all match zero (c ∷ s) = elim (match (c ∷ s)) [
    | none ↦ scan_all match zero s
    | some (a, rest) ↦ a ∷ scan_all match (length s - length rest) s
  ]

-- `\s*`.
unfoldable pub spaces : Str → Str
unfolding span is_space
spaces s = (span is_space s).1

-- `\s+`.
unfoldable pub spaces1 : Str → Option Str
unfolding span is_space
spaces1 s = if is_empty (span is_space s).0 then none else some (span is_space s).1

-- `(\w+)`: a group, and what is behind it. What follows in every expression is no `\w`, so that the
-- longest run is the only one to try.
unfoldable pub word1 : Str → Option (Str × Str)
unfolding span is_word
word1 s = if is_empty (span is_word s).0 then none else some (span is_word s)

infixl 5 ◌>>=◌
abbrev pub ◌>>=◌ {ℓ κ} : {A : Type ℓ} {B : Type κ} → Option A → (A → Option B) → Option B
some a >>= f = f a
none >>= f = none

-- `[\w<>,.?\s]`.
unfoldable pub is_type_char : ℕ → Bool
unfolding is_word is_space
is_type_char c =
    is_word c || c == b'<' || c == b'>' || c == b',' || c == b'.' || c == b'?' || is_space c

-- `([\w<>,.?\s]+?)` and the rest of an expression: the shortest group for which the rest matches.
unfoldable pub lazy_type : (Str → Option (Str × Str)) → Str → Str → Option (Str × Str × Str)
unfolding is_type_char
lazy_type tail group [] = none
lazy_type tail group (c ∷ s) = elim (is_type_char c) [
  | false ↦ none
  | true ↦ elim (tail s) [
    | some (name, rest) ↦ some (group ++ c ∷ [], name, rest)
    | none ↦ lazy_type tail (group ++ c ∷ []) s
  ]
]

-- The text before the first place where `p` begins, and what is behind `p` there.
unfoldable pub before : Str → Str → Option (Str × Str)
unfolding strip_prefix
before p [] = none
before p (c ∷ s) = elim (strip_prefix p (c ∷ s)) [
  | some rest ↦ some ([], rest)
  | none ↦ elim (before p s) [ none ↦ none | some (a, rest) ↦ some (c ∷ a, rest) ]
]
