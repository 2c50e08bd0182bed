-- ===== src/ApiTypes/Parse.antt =====
-- What scripts/generate-api-types.mjs reads in the C# sources: enums and records.
pub mod Enums
pub mod RoundTrip
use foundry_capital_markets.Prelude.{
  ◌*◌, ◌^◌, Bool, true, false, not, ◌&&◌, Option, none, some, List, [], ◌∷◌, ◌++◌, map,
  if◌then◌else◌, length, is_empty, any, all, keep, Str, codes, ◌===◌, strip_prefix, starts_with,
  is_word, trim, split, join, newline, cut_at, set_key,
}
use foundry_capital_markets.ApiTypes.Scan.{
  scan_all, spaces, spaces1, word1, ◌>>=◌, lazy_type, before,
}

-- `stripComments`.
unfoldable pub strip_comments : Str → Str
unfolding split join keep starts_with trim
strip_comments src =
    join (newline ∷ [])
      (keep (λ line. not (starts_with (trim line) (codes "//"))) (split newline src))

-- A member: what stands before `=`, without blanks.
unfoldable pub member_name : Str → Str
unfolding trim cut_at
member_name v = elim (cut_at b'=' (trim v)) [ none ↦ trim (trim v) | some (a, rest) ↦ trim a ]

-- `v.length > 0 && /^\w+$/.test(v)`.
unfoldable pub is_name : Str → Bool
unfolding all is_word
is_name v = not (is_empty v) && all is_word v

unfoldable pub members_of : Str → List Str
unfolding split member_name is_name keep
members_of body = keep is_name (map member_name (split b',' body))

-- `/public enum (\w+)\s*\{([^}]*)\}/`.
unfoldable pub match_enum : Str → Option ((Str × List Str) × Str)
unfolding strip_prefix word1 spaces cut_at
match_enum s = do
  r ← strip_prefix (codes "public enum ") s
  (name, r1) ← word1 r
  r2 ← strip_prefix (codes "{") (spaces r1)
  (body, rest) ← cut_at b'}' r2
  some ((name, members_of body), rest)

-- `map.set(name, ...)` for each match.
unfoldable pub set_all : {V : Type 0} → List (Str × V) → List (Str × V) → List (Str × V)
unfolding set_key
set_all [] m = m
set_all ((name, v) ∷ es) m = set_all es (set_key name v m)

-- `parseEnums`.
unfoldable pub parse_enums : Str → List (Str × List Str)
unfolding scan_all match_enum set_all
parse_enums src = set_all (scan_all match_enum 0 src) []

pub record Property : Type 0 where
  pub name : Str
  pub required : Bool
  pub csharp_type : Str

-- `\s+(\w+)\s*\{\s*get;`.
unfoldable pub stored_tail : Str → Option (Str × Str)
unfolding spaces1 word1 spaces strip_prefix
stored_tail s = do
  r ← spaces1 s
  (name, r1) ← word1 r
  r2 ← strip_prefix (codes "{") (spaces r1)
  rest ← strip_prefix (codes "get;") (spaces r2)
  some (name, rest)

-- `\s+(\w+)\s*=>`.
unfoldable pub computed_tail : Str → Option (Str × Str)
unfolding spaces1 word1 spaces strip_prefix
computed_tail s = do
  r ← spaces1 s
  (name, r1) ← word1 r
  rest ← strip_prefix (codes "=>") (spaces r1)
  some (name, rest)

unfoldable pub stored : Bool → Str → Option (Property × Str)
unfolding lazy_type stored_tail trim
stored required s = do
  (raw_type, name, rest) ← lazy_type stored_tail [] s
  some (record { name = name; required = required; csharp_type = trim raw_type }, rest)

-- `propRe`: `required ` is tried first.
unfoldable pub match_stored : Str → Option (Property × Str)
unfolding strip_prefix stored
match_stored s = do
  r ← strip_prefix (codes "public ") s
  elim (strip_prefix (codes "required ") r >>= stored true) [
    | some m ↦ some m
    | none ↦ stored false r
  ]

-- `computedRe`: a computed property always has a value.
unfoldable pub match_computed : Str → Option (Property × Str)
unfolding strip_prefix lazy_type computed_tail trim
match_computed s = do
  r ← strip_prefix (codes "public ") s
  (raw_type, name, rest) ← lazy_type computed_tail [] r
  some (record { name = name; required = true; csharp_type = trim raw_type }, rest)

-- The computed properties, less those that have a name that is there.
unfoldable pub add_computed : List Property → List Property → List Property
unfolding any ◌===◌
add_computed props [] = props
add_computed props (c ∷ cs) =
    add_computed (if any (λ p. p.name === c.name) props then props else props ++ c ∷ []) cs

unfoldable pub properties_of : Str → List Property
unfolding scan_all match_stored match_computed add_computed
properties_of body = add_computed (scan_all match_stored 0 body) (scan_all match_computed 0 body)

-- `/public sealed record (\w+)\s*\{([\s\S]*?)\n\}/`.
unfoldable pub match_record : Str → Option ((Str × List Property) × Str)
unfolding strip_prefix word1 spaces before
match_record s = do
  r ← strip_prefix (codes "public sealed record ") s
  (name, r1) ← word1 r
  r2 ← strip_prefix (codes "{") (spaces r1)
  (body, rest) ← before (newline ∷ b'}' ∷ []) r2
  some ((name, properties_of body), rest)

-- `parseRecords`.
unfoldable pub parse_records : Str → List (Str × List Property)
unfolding scan_all match_record set_all
parse_records src = set_all (scan_all match_record 0 src) []
