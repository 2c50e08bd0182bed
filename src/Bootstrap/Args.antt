-- ===== src/Bootstrap/Args.antt =====
-- The command line of bootstrap-repo.mjs, and the ways in which the script fails.
use foundry_capital_markets.Prelude.{
  Bool, true, false, ◌||◌, Option, none, some, List, [], ◌∷◌, ◌++◌, if◌then◌else◌, is_empty, Str,
  codes, ◌===◌, newline,
}

-- The calls of `fail`. Each ends the process.
pub data Failure : Type 0 where
  root_requires_directory : Failure
  unknown_argument : Str → Failure
  malformed_payload : Failure
  unsafe_payload_path : Str → Failure
  outside_root : Str → Failure

-- What `fail` writes to stderr, behind `error: `.
unfoldable pub fail : Failure → Str
fail root_requires_directory = codes "error: --root requires a directory argument\n"
fail (unknown_argument a) = codes "error: Unknown argument: " ++ (a ++ newline ∷ [])
fail malformed_payload = codes "error: embedded payload markers not found or malformed\n"
fail (unsafe_payload_path p) = codes "error: refusing unsafe payload path: " ++ (p ++ newline ∷ [])
fail (outside_root rel) =
    codes "error: refusing to write outside repo root: " ++ (rel ++ newline ∷ [])

pub data Result {ℓ} (A : Type ℓ) : Type ℓ where
  ok : A → Result A
  err : Failure → Result A

infixl 5 ◌>>=◌
abbrev pub ◌>>=◌ {ℓ κ} : {A : Type ℓ} {B : Type κ} → Result A → (A → Result B) → Result B
ok a >>= f = f a
err e >>= f = err e

pub record Opts : Type 0 where
  pub dry_run : Bool
  pub force : Bool
  pub root : Option Str
  pub list : Bool
  pub help : Bool

abbrev pub defaults : Opts
defaults = record { dry_run = false; force = false; root = none; list = false; help = false }

-- A flag that takes no value; `none` for any other argument.
unfoldable pub set_flag : Str → Opts → Option Opts
set_flag a opts =
    if a === codes "--dry-run"
    then some (record opts { dry_run = true })
    else if a === codes "--force"
    then some (record opts { force = true })
    else if a === codes "--list"
    then some (record opts { list = true })
    else if a === codes "--help" || a === codes "-h"
    then some (record opts { help = true })
    else none

-- The loop over `argv`. `--root` takes the argument behind it, which has to be there and not empty.
unfoldable pub parse_args_from : Opts → List Str → Result Opts
unfolding set_flag ◌===◌
parse_args_from opts [] = ok opts
parse_args_from opts (a ∷ []) = elim (set_flag a opts) [
  | some opts' ↦ ok opts'
  | none ↦ if a === codes "--root" then err root_requires_directory else err (unknown_argument a)
]
parse_args_from opts (a ∷ value ∷ argv) = elim (set_flag a opts) [
  | some opts' ↦ parse_args_from opts' (value ∷ argv)
  | none ↦
      let rest = parse_args_from (record opts { root = some value }) argv in
      if a === codes "--root"
      then (if is_empty value then err root_requires_directory else rest)
      else err (unknown_argument a)
]

unfoldable pub parse_args : List Str → Result Opts
unfolding parse_args_from
parse_args argv = parse_args_from defaults argv
