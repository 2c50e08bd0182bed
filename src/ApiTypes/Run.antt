-- ===== src/ApiTypes/Run.antt =====
-- `readSources` and `main` of scripts/generate-api-types.mjs.
--
-- The source directories are given by what they hold: names of files with their texts. Of the file
-- system there is the generated file, or none.
pub mod Sync
use foundry_capital_markets.ApiTypes.Types.{Js}
use foundry_capital_markets.Prelude.{
  ℕ, Bool, true, false, not, Option, none, some, List, [], ◌∷◌, ◌++◌, map, if◌then◌else◌, any, keep,
  Str, codes, ◌===◌, ends_with, join, newline,
}
use foundry_capital_markets.ApiTypes.Emit.{Generated, generated, types_missing, generate}

-- The texts of the `.cs` files of a directory.
unfoldable pub csharp_texts : List (Str × Str) → List Str
unfolding keep ends_with
csharp_texts dir = map (λ f. f.1) (keep (λ f. ends_with f.0 (codes ".cs")) dir)

unfoldable pub all_texts : List (List (Str × Str)) → List Str
unfolding csharp_texts
all_texts [] = []
all_texts (dir ∷ dirs) = csharp_texts dir ++ all_texts dirs

unfoldable pub read_sources : List (List (Str × Str)) → Str
unfolding all_texts join
read_sources dirs = join (newline ∷ []) (all_texts dirs)

-- How a run ends: an error that is thrown and not caught ends it with exit code 1.
pub record Ended : Type 0 where
  pub file : Option Str
  pub exit_code : ℕ

-- `--check`: the file that is there is compared.
unfoldable pub check_file : Str → Option Str → ℕ
unfolding ◌===◌
check_file text none = 1
check_file text (some current) = if current === text then 0 else 1

-- Whether the run is a check.
abbrev pub checks : List Str → Bool
checks argv = any (λ a. a === codes "--check") argv

-- `main` behind `generate`.
unfoldable pub finish : Bool → Option Str → Generated → Ended
unfolding check_file
finish check file (types_missing gone) = record { file = file; exit_code = 1 }
finish true file (generated text) = record { file = file; exit_code = check_file text file }
finish false file (generated text) = record { file = some text; exit_code = 0 }

unfoldable pub main : Js → List (List (Str × Str)) → List Str → Option Str → Ended
unfolding any ◌===◌ read_sources generate finish
main js dirs argv file = finish (checks argv) file (generate js (read_sources dirs))
