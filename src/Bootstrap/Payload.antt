-- ===== src/Bootstrap/Payload.antt =====
-- The payload of bootstrap-repo.mjs: finding it, cutting it into files, and a file's final text.
use mathlib.Core.List.{reverse}
use foundry_capital_markets.Prelude.{
  ℕ, zero, suc, ◌+◌, ◌-◌, Bool, true, false, ◌||◌, Option, none, some, List, [], ◌∷◌, ◌++◌, ltb,
  ◌==◌, if◌then◌else◌, length, take, drop, is_empty, any, find, Str, codes, ◌===◌, strip_prefix,
  starts_with, trim_end, trim, split, join, newline, set_key,
}
use foundry_capital_markets.Bootstrap.Args.{malformed_payload, unsafe_payload_path, Result, ok, err}

-- `s.indexOf(p)`.
unfoldable pub index_of : Str → Str → Option ℕ
unfolding starts_with
index_of p [] = if is_empty p then some 0 else none
index_of p (c ∷ s) = elim (starts_with (c ∷ s) p) [
  | true ↦ some 0
  | false ↦ elim (index_of p s) [ none ↦ none | some i ↦ some (suc i) ]
]

-- `s.lastIndexOf(p)`.
unfoldable pub last_index_of : Str → Str → Option ℕ
unfolding starts_with
last_index_of p [] = if is_empty p then some 0 else none
last_index_of p (c ∷ s) = elim (last_index_of p s) [
  | some i ↦ some (suc i)
  | none ↦ if starts_with (c ∷ s) p then some 0 else none
]

abbrev pub open_marker : Str
open_marker = codes "/*__SCAFFOLD_PAYLOAD_BEGIN__"

abbrev pub close_marker : Str
close_marker = codes "__SCAFFOLD_PAYLOAD_END__*/"

-- `src.slice(start, end)`, empty where the end is not behind the start.
unfoldable pub slice : ℕ → ℕ → Str → Str
slice start end s = take (end - start) (drop start s)

unfoldable pub load_payload : Str → Result Str
unfolding last_index_of slice
load_payload src = elim (last_index_of open_marker src) [
  | none ↦ err malformed_payload
  | some start ↦ elim (last_index_of close_marker src) [
    | none ↦ err malformed_payload
    | some end ↦
        if ltb end start
        then err malformed_payload
        else ok (slice (start + length open_marker) end src)
  ]
]

-- What `.` does not match.
unfoldable pub is_line_end : ℕ → Bool
is_line_end c = c == 10 || c == 13 || c == 0x2028 || c == 0x2029

abbrev pub header_start : Str
header_start = codes "===== FILE: "

abbrev pub header_end : Str
header_end = codes " ====="

-- The group of `SEP`, `/^===== FILE: (.+?) =====$/`: both ends are anchored, so it is all that
-- stands between them.
unfoldable pub sep_group : Str → Option Str
unfolding strip_prefix is_line_end any
sep_group line = elim (strip_prefix header_start line) [
  | none ↦ none
  | some rest ↦ elim (strip_prefix (reverse header_end) (reverse rest)) [
    | none ↦ none
    | some middle ↦
        if is_empty middle || any is_line_end middle then none else some (reverse middle)
  ]
]

-- `if (current) files.set(current, buf.join('\n'))`. No current file is the empty name, which a
-- header of blanks gives too: both are falsy.
unfoldable pub close_file : Str → List Str → List (Str × Str) → List (Str × Str)
unfolding set_key join
close_file current buf files =
    if is_empty current then files else set_key current (join (newline ∷ []) buf) files

-- The loop over the lines.
unfoldable pub collect_files : Str → List Str → List (Str × Str) → List Str → List (Str × Str)
unfolding close_file sep_group trim
collect_files current buf files [] = close_file current buf files
collect_files current buf files (line ∷ lines) = elim (sep_group line) [
  | some name ↦ collect_files (trim name) [] (close_file current buf files) lines
  | none ↦ collect_files current (if is_empty current then buf else buf ++ line ∷ []) files lines
]

-- `p.split(/[\\/]/)`.
unfoldable pub split_path_from : Str → Str → List Str
split_path_from cur [] = cur ∷ []
split_path_from cur (c ∷ s) = elim (c == b'/' || c == b'\\') [
  | true ↦ cur ∷ split_path_from [] s
  | false ↦ split_path_from (cur ++ c ∷ []) s
]

unfoldable pub climbs : Str → Bool
unfolding split_path_from any ◌===◌
climbs p = any (λ part. part === codes "..") (split_path_from [] p)

module _ (is_absolute : Str → Bool) where
  unfoldable pub is_unsafe : Str → Bool
  unfolding climbs
  is_unsafe p = is_absolute p || climbs p

  -- The first unsafe path stops the script.
  unfoldable pub check_paths : List (Str × Str) → Result (List (Str × Str))
  unfolding find is_unsafe
  check_paths files = elim (find (λ f. is_unsafe f.0) files) [
    | none ↦ ok files
    | some f ↦ err (unsafe_payload_path f.0)
  ]

  unfoldable pub parse_files : Str → Result (List (Str × Str))
  unfolding collect_files split check_paths
  parse_files payload = check_paths (collect_files [] [] [] (split newline payload))

-- `text.split(token).join(other)` at a token of several characters.
unfoldable pub replace_from : ℕ → Str → Str → Str → Str
unfolding strip_prefix
replace_from zero token other s = s
replace_from (suc fuel) token other [] = []
replace_from (suc fuel) token other (c ∷ s) = elim (strip_prefix token (c ∷ s)) [
  | some rest ↦ other ++ replace_from fuel token other rest
  | none ↦ c ∷ replace_from fuel token other s
]

-- Each round reads a character at least, so the length is fuel enough.
unfoldable pub replace_all : Str → Str → Str → Str
unfolding replace_from
replace_all token other s = replace_from (length s) token other s

abbrev pub globstar_token : Str
globstar_token = codes "@@GLOBSTAR@@"

abbrev pub cmtend_token : Str
cmtend_token = codes "@@CMTEND@@"

unfoldable pub drop_newlines : Str → Str
drop_newlines [] = []
drop_newlines (c ∷ s) = let rest = drop_newlines s in if c == newline then rest else c ∷ s

unfoldable pub normalise_content : Str → Str
unfolding replace_all drop_newlines trim_end
normalise_content text =
    let restored =
      replace_all cmtend_token (codes "*/") (replace_all globstar_token (codes "**") text) in
    let trimmed = trim_end (drop_newlines restored) in
    if is_empty trimmed then [] else trimmed ++ newline ∷ []
