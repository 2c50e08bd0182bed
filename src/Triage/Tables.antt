-- ===== src/Triage/Tables.antt =====
-- Reading the Markdown tables of team.md and routing.md: the parsers of ralph-triage.js.
use mathlib.Core.List.{reverse}
use foundry_capital_markets.Prelude.{
  ℕ, suc, Bool, true, false, not, ◌&&◌, ◌||◌, Option, none, some, List, [], ◌∷◌, ◌++◌, map, leb,
  ◌==◌, if◌then◌else◌, length, get_or, is_empty, all, keep, Str, codes, ◌===◌, starts_with,
  includes, trim, split, newline,
}
use foundry_capital_markets.Triage.Cells.{
  normalize_eol, is_work_type_section, is_module_section, is_members_section, is_roster_section,
  is_any_section, clean_cell, normalize_optional_owner, normalize_module_path,
}

pub record Table : Type 0 where
  pub headers : List Str
  pub rows : List (List Str)

-- `.replace(/\|$/, '')`
unfoldable pub drop_last_bar : Str → Str
drop_last_bar s = elim (reverse s) [ [] ↦ [] | c ∷ r ↦ if c == b'|' then reverse r else s ]

-- `.replace(/^\|/, '')`
unfoldable pub drop_first_bar : Str → Str
drop_first_bar [] = []
drop_first_bar (c ∷ s) = if c == b'|' then s else c ∷ s

unfoldable pub parse_table_line : Str → List Str
unfolding drop_last_bar drop_first_bar split trim
parse_table_line line = map trim (split b'|' (drop_last_bar (drop_first_bar line)))

-- The table lines of a section: those behind its header and before the next one that begin with a
-- bar.
unfoldable pub table_lines : (Str → Bool) → Bool → List Str → List Str
unfolding is_any_section trim starts_with
table_lines section inside [] = []
table_lines section inside (line ∷ lines) =
    let trimmed = trim line in
    elim (not inside && section trimmed) [
      | true ↦ table_lines section true lines
      | false ↦ elim (inside && is_any_section trimmed) [
        | true ↦ []
        | false ↦ elim (inside && starts_with trimmed (codes "|")) [
          | true ↦ trimmed ∷ table_lines section inside lines
          | false ↦ table_lines section inside lines
        ]
      ]
    ]

unfoldable pub drop_colon : Str → Str
drop_colon [] = []
drop_colon (c ∷ s) = if c == b':' then s else c ∷ s

-- `/^:?-{2,}:?$/`
unfoldable pub is_rule_cell : Str → Bool
unfolding drop_colon all
is_rule_cell cell =
    let dashes = reverse (drop_colon (reverse (drop_colon cell))) in
    leb 2 (length dashes) && all (λ c. c == b'-') dashes

-- The rows that are not a rule between header and body.
unfoldable pub table_rows : List Str → List (List Str)
unfolding parse_table_line is_rule_cell all
table_rows [] = []
table_rows (line ∷ lines) =
    let cells = parse_table_line line in
    let rest = table_rows lines in
    if is_empty cells || all is_rule_cell cells then rest else cells ∷ rest

unfoldable pub table_of_rows : List (List Str) → Option Table
table_of_rows [] = none
table_of_rows (headers ∷ rows) = some (record { headers = headers; rows = rows })

unfoldable pub parse_table_section : Str → (Str → Bool) → Option Table
unfolding table_of_rows table_rows table_lines normalize_eol split
parse_table_section markdown section =
    table_of_rows (table_rows (table_lines section false (split newline (normalize_eol markdown))))

-- `findIndex`.
unfoldable pub find_index {ℓ} : {A : Type ℓ} → (A → Bool) → List A → Option ℕ
find_index p [] = none
find_index p (x ∷ xs) = elim (p x) [
  | true ↦ some 0
  | false ↦ elim (find_index p xs) [ none ↦ none | some i ↦ some (suc i) ]
]

pub record Rule : Type 0 where
  pub work_type : Str
  pub agent_name : Str
  pub keywords : List Str

pub record Module : Type 0 where
  pub module_path : Str
  pub primary : Str
  pub secondary : Option Str

pub record Member : Type 0 where
  pub name : Str
  pub role : Str
  pub label : Str

-- `row[index] || ''`
abbrev pub cell : List Str → ℕ → Str
cell row index = get_or row index []

unfoldable pub split_keywords : Str → List Str
unfolding clean_cell split keep
split_keywords examples =
    if is_empty examples
    then []
    else keep (λ k. not (is_empty k)) (map clean_cell (split b',' examples))

-- A column that may be missing reads as empty.
abbrev pub optional_cell : List Str → Option ℕ → Str
optional_cell row none = []
optional_cell row (some index) = cell row index

unfoldable pub rule_rows : ℕ → ℕ → Option ℕ → List (List Str) → List Rule
unfolding clean_cell split_keywords
rule_rows work_type agent examples [] = []
rule_rows work_type agent examples (row ∷ rows) =
    let w = clean_cell (cell row work_type) in
    let a = clean_cell (cell row agent) in
    let rule : Rule = record {
      work_type = w;
      agent_name = a;
      keywords = split_keywords (optional_cell row examples);
    } in
    let rest = rule_rows work_type agent examples rows in
    if is_empty w || is_empty a then rest else rule ∷ rest

module _ (lower : Str → Str) where
  unfoldable pub find_column_index : List Str → List Str → Option ℕ
  unfolding find_index clean_cell includes
  find_column_index headers [] = none
  find_column_index headers (candidate ∷ candidates) =
      elim (find_index (λ h. includes (lower (clean_cell h)) candidate) headers) [
        | some i ↦ some i
        | none ↦ find_column_index headers candidates
      ]

  unfoldable pub rules_of_table : Table → List Rule
  unfolding find_column_index rule_rows
  rules_of_table t = elim (find_column_index t.headers (codes "work type" ∷ codes "type" ∷ [])) [
    | none ↦ []
    | some w ↦
        elim (find_column_index t.headers (codes "agent" ∷ codes "route to" ∷ codes "route" ∷ [])) [
          | none ↦ []
          | some a ↦
              rule_rows w a (find_column_index t.headers (codes "examples" ∷ codes "example" ∷ []))
                t.rows
        ]
  ]

  unfoldable pub parse_routing_rules : Str → List Rule
  unfolding parse_table_section rules_of_table is_work_type_section
  parse_routing_rules routing_md = elim (parse_table_section routing_md is_work_type_section) [
    | none ↦ []
    | some t ↦ rules_of_table t
  ]

  unfoldable pub module_rows : ℕ → ℕ → Option ℕ → List (List Str) → List Module
  unfolding normalize_module_path normalize_optional_owner clean_cell
  module_rows path primary secondary [] = []
  module_rows path primary secondary (row ∷ rows) =
      let p = normalize_module_path lower (cell row path) in
      let owner = clean_cell (cell row primary) in
      let m : Module = record {
        module_path = p;
        primary = owner;
        secondary = normalize_optional_owner (clean_cell (optional_cell row secondary));
      } in
      let rest = module_rows path primary secondary rows in
      if is_empty p || is_empty owner then rest else m ∷ rest

  unfoldable pub modules_of_table : Table → List Module
  unfolding find_column_index module_rows
  modules_of_table t = elim (find_column_index t.headers (codes "module" ∷ codes "path" ∷ [])) [
    | none ↦ []
    | some m ↦ elim (find_column_index t.headers (codes "primary" ∷ [])) [
      | none ↦ []
      | some p ↦ module_rows m p (find_column_index t.headers (codes "secondary" ∷ [])) t.rows
    ]
  ]

  unfoldable pub parse_module_ownership : Str → List Module
  unfolding parse_table_section modules_of_table is_module_section
  parse_module_ownership routing_md = elim (parse_table_section routing_md is_module_section) [
    | none ↦ []
    | some t ↦ modules_of_table t
  ]

  unfoldable pub is_excluded : Str → Bool
  unfolding ◌===◌
  is_excluded name = lower name === codes "scribe" || lower name === codes "ralph"

  unfoldable pub member_of : Str → Str → Member
  member_of name role = record { name = name; role = role; label = codes "squad:" ++ lower name }

  unfoldable pub member_rows : ℕ → ℕ → List (List Str) → List Member
  unfolding is_excluded member_of clean_cell
  member_rows name role [] = []
  member_rows name role (row ∷ rows) =
      let n = clean_cell (cell row name) in
      let r = clean_cell (cell row role) in
      let rest = member_rows name role rows in
      if is_empty n || is_empty r || is_excluded n then rest else member_of n r ∷ rest

  unfoldable pub members_of_table : Table → List Member
  unfolding find_column_index member_rows
  members_of_table t = elim (find_column_index t.headers (codes "name" ∷ [])) [
    | none ↦ []
    | some n ↦ elim (find_column_index t.headers (codes "role" ∷ [])) [
      | none ↦ []
      | some r ↦ member_rows n r t.rows
    ]
  ]

  -- The members section, or else the team roster.
  unfoldable pub parse_roster : Str → List Member
  unfolding parse_table_section members_of_table is_members_section is_roster_section
  parse_roster team_md = elim (parse_table_section team_md is_members_section) [
    | some t ↦ members_of_table t
    | none ↦ elim (parse_table_section team_md is_roster_section) [
      | none ↦ []
      | some t ↦ members_of_table t
    ]
  ]
