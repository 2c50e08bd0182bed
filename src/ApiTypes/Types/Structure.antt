-- ===== src/ApiTypes/Types/Structure.antt =====
-- The types of the records by their structure: how they are written in C# and in TypeScript.
use foundry_capital_markets.Prelude.{
  ◌≡◌, ◌≢◌, Bool, true, false, Option, none, some, [], ◌++◌, Str, codes, is_word,
}
use foundry_capital_markets.ApiTypes.Blanks.{Chars}
use foundry_capital_markets.ApiTypes.Types.{primitive}

-- A C# type of a property: a name, or a collection whose argument may carry a `?`.
pub data CSharpType : Type 0 where
  named : Str → CSharpType
  list_of : CSharpType → Bool → CSharpType
  set_of : CSharpType → Bool → CSharpType
  dictionary_of : Str → CSharpType → Bool → CSharpType

abbrev pub mark : Bool → Str
mark true = codes "?"
mark false = []

-- How it is written, without a mark of its own.
abbrev pub type_text : CSharpType → Str
type_text (named n) = n
type_text (list_of t q) = codes "IReadOnlyList<" ++ ((type_text t ++ mark q) ++ codes ">")
type_text (set_of t q) = codes "IReadOnlySet<" ++ ((type_text t ++ mark q) ++ codes ">")
type_text (dictionary_of k t q) =
    codes "IReadOnlyDictionary<" ++ ((k ++ (codes ", " ++ (type_text t ++ mark q))) ++ codes ">")

-- The name of a TypeScript type for a C# name.
abbrev pub name_in_ts : Str → Str
name_in_ts n = elim (primitive (λ m. none) n) [ some ts ↦ ts | none ↦ n ]

-- The TypeScript type.
abbrev pub type_in_ts : CSharpType → Str
type_in_ts (named n) = name_in_ts n
type_in_ts (list_of t q) = type_in_ts t ++ codes "[]"
type_in_ts (set_of t q) = type_in_ts t ++ codes "[]"
type_in_ts (dictionary_of k t q) =
    codes "Partial<Record<" ++ (name_in_ts k ++ (codes ", " ++ (type_in_ts t ++ codes ">>")))

abbrev pub IsWord : Str → Type 0
IsWord n = Chars is_word n × (n ≢ [])

-- Every name is a word.
abbrev pub IsWritten : CSharpType → Type 0
IsWritten (named n) = IsWord n
IsWritten (list_of t q) = IsWritten t
IsWritten (set_of t q) = IsWritten t
IsWritten (dictionary_of k t q) = IsWord k × IsWritten t

-- An object inherits nothing under any of the names.
abbrev pub IsOwn : (Str → Option Str) → CSharpType → Type 0
IsOwn inherited (named n) = inherited n ≡ none
IsOwn inherited (list_of t q) = IsOwn inherited t
IsOwn inherited (set_of t q) = IsOwn inherited t
IsOwn inherited (dictionary_of k t q) = (inherited k ≡ none) × IsOwn inherited t
