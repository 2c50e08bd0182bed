-- ===== src/Triage/Remote.antt =====
-- The command line of ralph-triage.js, and the repository's owner and name from its remote.
use mathlib.Core.List.{reverse}
use foundry_capital_markets.Prelude.{
  ℕ, Bool, ◌||◌, Option, none, some, List, [], ◌∷◌, ◌==◌, if◌then◌else◌, is_empty, any, Str, codes,
  ◌===◌, strip_prefix, starts_with, split,
}
use foundry_capital_markets.Triage.Cells.{◌>>=◌, until}

pub record Args : Type 0 where
  pub squad_dir : Str
  pub output : Str

-- How `parseArgs` ends: with the arguments, with the usage and exit 0, or by an exception. A value
-- that is missing is the empty text: both are falsy.
pub data Parsed : Type 0 where
  run : Args → Parsed
  usage : Parsed
  unknown_argument : Str → Parsed
  no_squad_dir : Parsed
  no_output : Parsed

unfoldable pub finish_args : Args → Parsed
finish_args args =
    if is_empty args.squad_dir
    then no_squad_dir
    else if is_empty args.output
    then no_output
    else run args

-- An option behind which the command line ends has no value.
unfoldable pub parse_args_from : Args → List Str → Parsed
unfolding ◌===◌ finish_args
parse_args_from args [] = finish_args args
parse_args_from args (a ∷ []) =
    if a === codes "--squad-dir"
    then finish_args (record args { squad_dir = [] })
    else if a === codes "--output"
    then finish_args (record args { output = [] })
    else if a === codes "--help" || a === codes "-h"
    then usage
    else unknown_argument a
parse_args_from args (a ∷ value ∷ argv) =
    let with_dir = parse_args_from (record args { squad_dir = value }) argv in
    let with_output = parse_args_from (record args { output = value }) argv in
    if a === codes "--squad-dir"
    then with_dir
    else if a === codes "--output"
    then with_output
    else if a === codes "--help" || a === codes "-h"
    then usage
    else unknown_argument a

unfoldable pub parse_args : List Str → Parsed
unfolding parse_args_from
parse_args argv =
    parse_args_from (record { squad_dir = codes ".squad"; output = codes "triage-results.json" })
      argv

pub record OwnerRepo : Type 0 where
  pub owner : Str
  pub repo : Str

unfoldable pub strip_suffix : Str → Str → Option Str
unfolding strip_prefix
strip_suffix suffix s = elim (strip_prefix (reverse suffix) (reverse s)) [
  | none ↦ none
  | some r ↦ some (reverse r)
]

-- `(.+?)(?:\.git)?$`: what is left without one `.git`, if it is not empty.
unfoldable pub drop_git : Str → Str
unfolding strip_suffix
drop_git s = elim (strip_suffix (codes ".git") s) [ none ↦ s | some [] ↦ s | some (c ∷ r) ↦ c ∷ r ]

unfoldable pub is_line_end : ℕ → Bool
is_line_end c = c == 10 || c == 13 || c == 0x2028 || c == 0x2029

-- `/^git@[^:]+:([^/]+)\/(.+?)(?:\.git)?$/`
unfoldable pub parse_ssh : Str → Option OwnerRepo
unfolding strip_prefix until drop_git any is_line_end
parse_ssh url = do
  rest ← strip_prefix (codes "git@") url
  (host, path) ← until b':' rest
  (owner, repo) ← until b'/' path
  if is_empty host || is_empty owner || is_empty repo || any is_line_end repo
      then none
      else some (record { owner = owner; repo = drop_git repo })

-- `.replace(/^\/+/, '')`
unfoldable pub drop_slashes : Str → Str
drop_slashes [] = []
drop_slashes (c ∷ s) = let rest = drop_slashes s in if c == b'/' then rest else c ∷ s

-- `.replace(/\.git$/, '')`
unfoldable pub drop_git_suffix : Str → Str
unfolding strip_suffix
drop_git_suffix s = elim (strip_suffix (codes ".git") s) [ none ↦ s | some r ↦ r ]

unfoldable pub owner_repo_of_parts : List Str → Option OwnerRepo
owner_repo_of_parts [] = none
owner_repo_of_parts (p ∷ []) = none
owner_repo_of_parts (p ∷ q ∷ ps) = some (record { owner = p; repo = q })

-- `parseOwnerRepoFromRemote`, with the path name that the platform's `URL` finds as a parameter.
-- `none` is the exception.
unfoldable pub parse_owner_repo_from_remote : (Str → Option Str) → Str → Option OwnerRepo
unfolding parse_ssh drop_slashes drop_git_suffix split owner_repo_of_parts starts_with
parse_owner_repo_from_remote pathname url = elim (parse_ssh url) [
  | some r ↦ some r
  | none ↦
      if starts_with url (codes "http://")
        || starts_with url (codes "https://")
        || starts_with url (codes "ssh://")
      then (pathname url >>= λ p.
          owner_repo_of_parts (split b'/' (drop_git_suffix (drop_slashes p))))
      else none
]
