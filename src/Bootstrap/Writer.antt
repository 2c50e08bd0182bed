-- ===== src/Bootstrap/Writer.antt =====
-- `main` of bootstrap-repo.mjs: where it writes, what it leaves alone, and its report.
--
-- Node's `path` and the file system's view of a path are a parameter. A write that Node lets
-- through succeeds; a directory is there from the call that makes it.
use foundry_capital_markets.Prelude.{
  Bool, true, false, not, ◌&&◌, ◌||◌, Option, none, some, List, [], ◌∷◌, ◌++◌, map, ltb, ◌==◌,
  if◌then◌else◌, any, Str, codes, ◌===◌, starts_with, ends_with, set_key, at_key,
}
use foundry_capital_markets.Bootstrap.Args.{
  Failure, outside_root, Result, ok, err, ◌>>=◌, Opts, parse_args,
}
use foundry_capital_markets.Bootstrap.Payload.{load_payload, parse_files, normalise_content}

-- `node:path`, and the directories that a recursive `mkdir` makes sure of.
pub record PathModule : Type 0 where
  pub is_absolute : Str → Bool
  pub absolute : Str → Str
  pub resolve : Str → Str → Str
  pub dirname : Str → Str
  pub sep : Str
  pub ancestors : Str → List Str

pub record FileSystem : Type 0 where
  pub files : List (Str × Str)
  pub directories : List Str
  pub executable : List Str

-- `access(p, F_OK)`.
unfoldable pub exists : Str → FileSystem → Bool
unfolding any ◌===◌
exists p fs = any (λ f. f.0 === p) fs.files || any (λ d. d === p) fs.directories

-- The code units' order, as the default `sort` has it.
unfoldable pub str_leb : Str → Str → Bool
str_leb [] t = true
str_leb (c ∷ s) [] = false
str_leb (c ∷ s) (d ∷ t) = ltb c d || ((c == d) && str_leb s t)

unfoldable pub insert_sorted : Str → List Str → List Str
insert_sorted k [] = k ∷ []
insert_sorted k (j ∷ js) =
    let rest = insert_sorted k js in if str_leb k j then k ∷ j ∷ js else j ∷ rest

unfoldable pub sort : List Str → List Str
unfolding insert_sorted str_leb
sort [] = []
sort (k ∷ ks) = insert_sorted k (sort ks)

unfoldable pub keys : List (Str × Str) → List Str
keys files = map (λ f. f.0) files

-- `files.get(rel)`; every key that is looked up is there.
unfoldable pub file_text : Str → List (Str × Str) → Str
unfolding at_key
file_text rel files = elim (at_key rel files) [ none ↦ [] | some c ↦ c ]

-- The file system and the three lists of the report.
pub record Progress : Type 0 where
  pub fs : FileSystem
  pub created : List Str
  pub skipped : List Str
  pub overwritten : List Str

-- How a run ends: with its report, or by a call of `fail`, with what was written so far.
pub record Ended : Type 0 where
  pub progress : Progress
  pub failure : Option Failure

module _ (path : PathModule) where
  unfoldable pub resolve_root : Str → Opts → Str
  resolve_root self opts = elim opts.root [
    | some root ↦ path.absolute root
    | none ↦ path.absolute (path.resolve (path.dirname self) (codes ".."))
  ]

  -- A path is the root, or begins with the root and a separator.
  unfoldable pub is_bounded : Str → Str → Bool
  unfolding starts_with ◌===◌
  is_bounded root target = target === root || starts_with target (root ++ path.sep)

  unfoldable pub safe_join : Str → Str → Result Str
  unfolding is_bounded
  safe_join root rel =
      if is_bounded root (path.resolve root rel)
      then ok (path.resolve root rel)
      else err (outside_root rel)

  -- `mkdir`, `writeFile` and, for a shell script, `chmod`.
  unfoldable pub write_file : Str → Str → Str → FileSystem → FileSystem
  unfolding set_key ends_with normalise_content
  write_file rel target text fs = record {
    files = set_key target (normalise_content text) fs.files;
    directories = path.ancestors (path.dirname target) ++ fs.directories;
    executable = if ends_with rel (codes ".sh") then target ∷ fs.executable else fs.executable;
  }

  -- One round of the loop, where the path is bounded.
  unfoldable pub place : Opts → Str → Str → Str → Progress → Progress
  unfolding exists write_file
  place opts rel target text p =
      let present = exists target p.fs in
      let fs' = if opts.dry_run then p.fs else write_file rel target text p.fs in
      if present && not opts.force
      then record p { skipped = p.skipped ++ rel ∷ [] }
      else if present
      then record p { fs = fs'; overwritten = p.overwritten ++ rel ∷ [] }
      else record p { fs = fs'; created = p.created ++ rel ∷ [] }

  unfoldable pub write_files : Opts → Str → List (Str × Str) → List Str → Progress → Ended
  write_files opts root files [] p = record { progress = p; failure = none }
  write_files opts root files (rel ∷ rels) p = elim (safe_join root rel) [
    | err e ↦ record { progress = p; failure = some e }
    | ok target ↦ write_files opts root files rels (place opts rel target (file_text rel files) p)
  ]

  abbrev pub start : FileSystem → Progress
  start fs = record { fs = fs; created = []; skipped = []; overwritten = [] }

  abbrev pub stopped : FileSystem → Failure → Ended
  stopped fs e = record { progress = start fs; failure = some e }

  -- `main` behind its command line and its payload: `--list` writes nothing.
  unfoldable pub with_files : Str → Opts → FileSystem → Result (List (Str × Str)) → Ended
  with_files self opts fs (err e) = stopped fs e
  with_files self opts fs (ok files) =
      if opts.list
      then record { progress = start fs; failure = none }
      else write_files opts (resolve_root self opts) files (sort (keys files)) (start fs)

  unfoldable pub embedded_files : Str → Result (List (Str × Str))
  embedded_files src = load_payload src >>= parse_files path.is_absolute

  -- `--help` comes before the payload is read.
  unfoldable pub with_opts : Str → Str → FileSystem → Result Opts → Ended
  with_opts self src fs (err e) = stopped fs e
  with_opts self src fs (ok opts) =
      if opts.help
      then record { progress = start fs; failure = none }
      else with_files self opts fs (embedded_files src)

  -- `main`, with the script's path and source, up to what it prints.
  unfoldable pub main : Str → Str → List Str → FileSystem → Ended
  main self src argv fs = with_opts self src fs (parse_args argv)
