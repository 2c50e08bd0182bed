-- ===== src/Diagram/Generator.antt =====
-- scripts/diagrams/generate-diagrams.mjs: its command line, and what it writes or checks.
--
-- The diagrams that are rendered are an argument: their names and texts. `join` of node:path and the
-- rendering of a count are parameters.
pub mod Sync
mod Tests
use foundry_capital_markets.Prelude.{
  ℕ, ◌+◌, ◌-◌, Bool, true, false, not, ◌&&◌, ◌||◌, none, some, List, [], ◌∷◌, ◌++◌, ◌==◌,
  if◌then◌else◌, length, take, is_empty, Str, codes, ◌===◌, starts_with, ends_with, set_key, at_key,
}

pub record Args : Type 0 where
  pub out : Str
  pub check : Bool
  pub help : Bool

pub data ArgsError : Type 0 where
  out_requires_directory : ArgsError
  unknown_argument : Str → ArgsError

pub data Parsed : Type 0 where
  parsed : Args → Parsed
  bad_usage : ArgsError → Parsed

abbrev pub default_args : Args
default_args = record { out = codes "docs/diagrams"; check = false; help = false }

-- Whether the argument behind `--out` is a directory: it is there, not empty, and no option.
unfoldable pub is_directory : Str → Bool
unfolding starts_with
is_directory value = not (is_empty value) && not (starts_with value (codes "--"))

-- The loop over `argv`. The last argument has nothing behind it.
unfoldable pub parse_args_from : Args → List Str → Parsed
unfolding is_directory ◌===◌
parse_args_from args [] = parsed args
parse_args_from args (a ∷ []) =
    if a === codes "--out"
    then bad_usage out_requires_directory
    else if a === codes "--check"
    then parsed (record args { check = true })
    else if a === codes "--help" || a === codes "-h"
    then parsed (record args { help = true })
    else bad_usage (unknown_argument a)
parse_args_from args (a ∷ value ∷ rest) =
    let taken = parse_args_from (record args { out = value }) rest in
    let checking = parse_args_from (record args { check = true }) (value ∷ rest) in
    let helping = parse_args_from (record args { help = true }) (value ∷ rest) in
    if a === codes "--out"
    then if is_directory value then taken else bad_usage out_requires_directory
    else if a === codes "--check"
    then checking
    else if a === codes "--help" || a === codes "-h"
    then helping
    else bad_usage (unknown_argument a)

unfoldable pub parse_args : List Str → Parsed
unfolding parse_args_from
parse_args argv = parse_args_from default_args argv

-- What `render` gives of a diagram.
pub record Rendered : Type 0 where
  pub file : Str
  pub svg_file : Str
  pub json : Str
  pub svg : Str

-- `file.replace(/\.excalidraw$/, '.svg')`.
unfoldable pub svg_name : Str → Str
unfolding ends_with
svg_name file =
    if ends_with file (codes ".excalidraw")
    then take (length file - 11) file ++ codes ".svg"
    else file

-- The files of the diagrams, in the order in which they are written and compared.
unfoldable pub outputs : List Rendered → List (Str × Str)
outputs [] = []
outputs (d ∷ ds) = (d.file, d.json) ∷ (d.svg_file, d.svg) ∷ outputs ds

-- What `compare` finds of one file.
pub data Comparison : Type 0 where
  in_sync : Comparison
  missing : Comparison
  drifted : Comparison

abbrev pub is_drift : Comparison → Bool
is_drift in_sync = false
is_drift missing = true
is_drift drifted = true

-- How a run ends: by its exit code, with the files that are then there.
pub record Ended : Type 0 where
  pub files : List (Str × Str)
  pub exit_code : ℕ

module _ (join_path : Str → Str → Str) where
  unfoldable pub compare_file : Str → List (Str × Str) → Str × Str → Comparison
  unfolding at_key ◌===◌
  compare_file dir files (name, expected) = elim (at_key (join_path dir name) files) [
    | none ↦ missing
    | some on_disk ↦ if on_disk === expected then in_sync else drifted
  ]

  -- `drift`: how many files are missing or differ.
  unfoldable pub drift : Str → List (Str × Str) → List (Str × Str) → ℕ
  unfolding compare_file
  drift dir files [] = 0
  drift dir files (o ∷ os) =
      (if is_drift (compare_file dir files o) then 1 else 0) + drift dir files os

  unfoldable pub write_outputs : Str → List (Str × Str) → List (Str × Str) → List (Str × Str)
  unfolding set_key
  write_outputs dir [] files = files
  write_outputs dir ((name, content) ∷ os) files =
      write_outputs dir os (set_key (join_path dir name) content files)

  -- `main` with arguments that were parsed; `resolve` is that of the out directory.
  unfoldable pub run : (Str → Str) → List Rendered → Args → List (Str × Str) → Ended
  unfolding outputs drift write_outputs
  run resolve rendered args files =
      let dir = resolve args.out in
      if args.help
      then record { files = files; exit_code = 0 }
      else if args.check
      then record {
        files = files;
        exit_code = if drift dir files (outputs rendered) == 0 then 0 else 1;
      }
      else record { files = write_outputs dir (outputs rendered) files; exit_code = 0 }

  unfoldable pub main : (Str → Str) → List Rendered → List Str → List (Str × Str) → Ended
  unfolding parse_args run
  main resolve rendered argv files = elim (parse_args argv) [
    | bad_usage e ↦ record { files = files; exit_code = 2 }
    | parsed args ↦ run resolve rendered args files
  ]
