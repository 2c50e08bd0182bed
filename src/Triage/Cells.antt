-- ===== src/Triage/Cells.antt =====
-- The text helpers of ralph-triage.js, its regular expressions written out.
--
-- `toLowerCase` follows the Unicode tables, which are no part of the program: it is a parameter.
use foundry_capital_markets.Prelude.{
  ℕ, zero, suc, ◌+◌, Bool, true, false, not, ◌&&◌, ◌||◌, Option, none, some, List, [], ◌∷◌, ◌++◌,
  map, leb, ◌==◌, if◌then◌else◌, length, is_empty, all, keep, Str, codes, is_space, is_word,
  trim_start, trim, newline,
}

-- `\r\n` and `\r` become `\n`. The flag says that the last character was `\r`.
unfoldable pub normalize_eol_from : Bool → Str → Str
normalize_eol_from after [] = []
normalize_eol_from after (c ∷ s) = elim (c == 13) [
  | true ↦ newline ∷ normalize_eol_from true s
  | false ↦ elim (after && c == newline) [
    | true ↦ normalize_eol_from false s
    | false ↦ c ∷ normalize_eol_from false s
  ]
]

unfoldable pub normalize_eol : Str → Str
unfolding normalize_eol_from
normalize_eol s = normalize_eol_from false s

-- The fold of the flag `i` on the ASCII letters.
unfoldable pub fold_case : ℕ → ℕ
fold_case c = if leb b'A' c && leb c b'Z' then c + 32 else c

-- A literal under the flag `i`, and what is behind it.
unfoldable pub eat : Str → Str → Option Str
unfolding fold_case
eat [] s = some s
eat (w ∷ ws) [] = none
eat (w ∷ ws) (c ∷ s) = let rest = eat ws s in if fold_case c == w then rest else none

-- `\b` behind a letter.
unfoldable pub at_boundary : Str → Bool
unfolding is_word
at_boundary [] = true
at_boundary (c ∷ s) = not (is_word c)

infixl 5 ◌>>=◌
abbrev pub ◌>>=◌ {ℓ κ} : {A : Type ℓ} {B : Type κ} → Option A → (A → Option B) → Option B
none >>= f = none
some a >>= f = f a

-- `^##\s*w₁\s*w₂…\b`: words with any space before each.
unfoldable pub eat_words : List Str → Str → Bool
unfolding eat at_boundary trim_start
eat_words [] s = at_boundary s
eat_words (w ∷ ws) s = elim (eat w (trim_start s)) [ none ↦ false | some rest ↦ eat_words ws rest ]

unfoldable pub is_section : List Str → Str → Bool
unfolding eat eat_words
is_section words line = elim (eat (codes "##") line) [
  | none ↦ false
  | some rest ↦ eat_words words rest
]

-- `/^##\s*work\s*type\s*(?:→|->)\s*agent\b/i`
unfoldable pub is_work_type_section : Str → Bool
unfolding is_section
is_work_type_section line =
    is_section (codes "work" ∷ codes "type" ∷ (0x2192 ∷ []) ∷ codes "agent" ∷ []) line
    || is_section (codes "work" ∷ codes "type" ∷ codes "->" ∷ codes "agent" ∷ []) line

-- `/^##\s*module\s*ownership\b/i`
unfoldable pub is_module_section : Str → Bool
unfolding is_section
is_module_section line = is_section (codes "module" ∷ codes "ownership" ∷ []) line

-- `/^##\s*members\b/i` and `/^##\s*team\s*roster\b/i`
unfoldable pub is_members_section : Str → Bool
unfolding is_section
is_members_section line = is_section (codes "members" ∷ []) line

unfoldable pub is_roster_section : Str → Bool
unfolding is_section
is_roster_section line = is_section (codes "team" ∷ codes "roster" ∷ []) line

-- `/^##\s+/`
unfoldable pub is_any_section : Str → Bool
unfolding eat is_space
is_any_section line = elim (eat (codes "##") line) [
  | none ↦ false
  | some [] ↦ false
  | some (c ∷ s) ↦ is_space c
]

-- The text up to a character that is there, and what is behind it.
unfoldable pub until : ℕ → Str → Option (Str × Str)
until stop [] = none
until stop (c ∷ s) =
    let rest = until stop s in
    if c == stop
    then some ([], s)
    else elim rest [ none ↦ none | some (before, behind) ↦ some (c ∷ before, behind) ]

-- `\[([^\]]+)\]\([^)]+\)` at the start of a text: the group, and what is behind the link.
unfoldable pub link_at : Str → Option (Str × Str)
unfolding until
link_at [] = none
link_at (c ∷ s) =
    if c == b'['
    then elim (until b']' s) [
      | none ↦ none
      | some (label, []) ↦ none
      | some (label, d ∷ more) ↦
          if is_empty label || not (d == b'(') then none else elim (until b')' more) [
            | none ↦ none
            | some (url, behind) ↦ if is_empty url then none else some (label, behind)
          ]
    ]
    else none

-- `.replace(…, '$1')` for every link. A round reads one character at least, so the length is fuel
-- enough.
unfoldable pub unlink_from : ℕ → Str → Str
unfolding link_at
unlink_from zero s = s
unlink_from (suc fuel) [] = []
unlink_from (suc fuel) (c ∷ s) = elim (link_at (c ∷ s)) [
  | none ↦ c ∷ unlink_from fuel s
  | some (label, behind) ↦ label ++ unlink_from fuel behind
]

unfoldable pub unlink : Str → Str
unfolding unlink_from
unlink s = unlink_from (length s) s

unfoldable pub clean_cell : Str → Str
unfolding unlink trim keep
clean_cell value = trim (unlink (keep (λ c. not (c == b'`')) value))

unfoldable pub forward_slash : ℕ → ℕ
forward_slash c = if c == b'\\' then b'/' else c

unfoldable pub normalize_text_for_path_match : Str → Str
unfolding forward_slash keep
normalize_text_for_path_match text = keep (λ c. not (c == b'`')) (map forward_slash text)

-- `/^[-—–]+$/`, and the empty owner.
unfoldable pub is_dash : ℕ → Bool
is_dash c = c == b'-' || c == 0x2014 || c == 0x2013

unfoldable pub normalize_optional_owner : Str → Option Str
unfolding is_dash all
normalize_optional_owner owner = if is_empty owner || all is_dash owner then none else some owner

-- `.replace(/\s+/g, ' ')`. The flag says that the last character was a space.
unfoldable pub collapse_spaces : Bool → Str → Str
unfolding is_space
collapse_spaces after [] = []
collapse_spaces after (c ∷ s) = elim (is_space c) [
  | true ↦ let rest = collapse_spaces true s in if after then rest else b' ' ∷ rest
  | false ↦ c ∷ collapse_spaces false s
]

-- The characters of `[\w@\s-]`.
unfoldable pub is_name_char : ℕ → Bool
unfolding is_word is_space
is_name_char c = is_word c || c == b'@' || is_space c || c == b'-'

module _ (lower : Str → Str) where
  unfoldable pub normalize_module_path : Str → Str
  unfolding clean_cell forward_slash
  normalize_module_path module_path = lower (map forward_slash (clean_cell module_path))

  unfoldable pub normalize_name : Str → Str
  unfolding clean_cell keep is_name_char collapse_spaces trim
  normalize_name value = trim (collapse_spaces false (keep is_name_char (lower (clean_cell value))))
