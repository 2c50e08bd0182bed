-- ===== src/ApiTypes/Types.antt =====
-- `mapType` and `camel` of scripts/generate-api-types.mjs.
pub mod Arguments
pub mod Ends
pub mod Mapping
pub mod Structure
pub mod Texts
use mathlib.Core.List.{reverse}
use foundry_capital_markets.Prelude.{
  ℕ, zero, suc, ◌+◌, ◌-◌, Bool, true, false, not, ◌&&◌, ◌||◌, Option, none, some, [], ◌∷◌, ◌++◌,
  ◌==◌, if◌then◌else◌, length, drop, is_empty, any, Str, codes, ◌===◌, strip_prefix, trim_start,
  trim, cut_at,
}
use foundry_capital_markets.ApiTypes.Scan.{◌>>=◌, before}

pub record Mapped : Type 0 where
  pub ts : Str
  pub nullable : Bool

-- What stands before a suffix.
unfoldable pub strip_suffix : Str → Str → Option Str
unfolding strip_prefix
strip_suffix p s = elim (strip_prefix (reverse p) (reverse s)) [
  | none ↦ none
  | some r ↦ some (reverse r)
]

-- The characters that `.` does not match.
unfoldable pub is_break : ℕ → Bool
is_break c = c == 10 || c == 13 || c == 0x2028 || c == 0x2029

-- A text that `.+` matches.
unfoldable pub is_line : Str → Bool
unfolding any is_break
is_line s = not (is_empty s) && not (any is_break s)

-- `/^<prefix>...>$/`: what stands between.
unfoldable pub between : Str → Str → Option Str
unfolding strip_prefix strip_suffix
between prefix type = strip_prefix prefix type >>= strip_suffix (codes ">")

-- `(.+)`.
unfoldable pub line_group : Str → Option Str
unfolding is_line
line_group s = if is_line s then some s else none

-- The argument of a list or a set.
unfoldable pub list_argument : Str → Option Str
unfolding between line_group
list_argument type = elim (between (codes "IReadOnlyList<") type >>= line_group) [
  | some inner ↦ some inner
  | none ↦ between (codes "IReadOnlySet<") type >>= line_group
]

-- `\s*(.+)`, of a text that is not empty: the blanks are left out, but for the last where there is
-- nothing else.
unfoldable pub value_argument : Str → Str
unfolding trim_start
value_argument s = if is_empty (trim_start s) then drop (length s - 1) s else trim_start s

-- `(.+?),\s*(.+)`: the first comma behind a character, with something behind it.
unfoldable pub dictionary_arguments : Str → Option (Str × Str)
unfolding cut_at value_argument is_line
dictionary_arguments [] = none
dictionary_arguments (c ∷ s) = do
  (key, value) ← cut_at b',' s
  (if is_line (c ∷ key) && is_line (value_argument value)
      then some (c ∷ key, value_argument value)
      else none)

-- What the script asks of JavaScript: `toLowerCase` of a character, and what an object inherits under a
-- name from Object.prototype (`constructor`, `toString`, ...), as the text that a template makes of it.
pub record Js : Type 0 where
  pub to_lower : Str → Str
  pub inherited : Str → Option Str

-- `PRIMITIVES[type]`, which finds inherited names too.
unfoldable pub primitive : (Str → Option Str) → Str → Option Str
unfolding ◌===◌
primitive inherited type =
    if type === codes "string" || type === codes "DateTimeOffset"
    then some (codes "string")
    else if type === codes "int" || type === codes "double" || type === codes "decimal"
    then some (codes "number")
    else if type === codes "bool"
    then some (codes "boolean")
    else inherited type

-- `type.endsWith('?')`, with the rest trimmed.
unfoldable pub split_nullable : Str → Str × Bool
unfolding strip_suffix trim
split_nullable type = elim (strip_suffix (codes "?") type) [
  | some rest ↦ (trim rest, true)
  | none ↦ (type, false)
]

-- `mapType`, with a round for each argument within an argument. An enum is written as any other name.
unfoldable pub map_ts : (Str → Option Str) → ℕ → Str → Str
unfolding split_nullable trim list_argument between dictionary_arguments primitive
map_ts inherited zero csharp_type = []
map_ts inherited (suc fuel) csharp_type =
    let type = (split_nullable (trim csharp_type)).0 in
    elim (list_argument type) [
      | some inner ↦ map_ts inherited fuel inner ++ codes "[]"
      | none ↦ elim (between (codes "IReadOnlyDictionary<") type >>= dictionary_arguments) [
        | some (key, value) ↦
            codes "Partial<Record<"
            ++ (map_ts inherited fuel key
                ++ (codes ", " ++ (map_ts inherited fuel value ++ codes ">>")))
        | none ↦ elim (primitive inherited type) [ some ts ↦ ts | none ↦ type ]
      ]
    ]

unfoldable pub map_type : (Str → Option Str) → Str → Mapped
unfolding map_ts split_nullable trim
map_type inherited csharp_type = record {
  ts = map_ts inherited (length csharp_type + 1) csharp_type;
  nullable = (split_nullable (trim csharp_type)).1;
}

-- `camel`, with the method `toLowerCase` of a character.
unfoldable pub camel : (Str → Str) → Str → Str
camel lower [] = lower []
camel lower (c ∷ name) = lower (c ∷ []) ++ name
