-- ===== src/Bootstrap/Tests.antt =====
-- bootstrap-repo.mjs at a small payload, on a file system with one file.
use foundry_capital_markets.Prelude.{
  ◌≡◌, refl, true, none, some, List, [], ◌∷◌, ◌++◌, Str, codes, starts_with, set_key, at_key,
}
use mathlib.Core.List.{Perm}
use foundry_capital_markets.Bootstrap.Args.{unsafe_payload_path, ok, Opts, defaults, parse_args}
use foundry_capital_markets.Bootstrap.Payload.{
  open_marker, close_marker, load_payload, parse_files, normalise_content,
}
use foundry_capital_markets.Bootstrap.Writer.{
  PathModule, FileSystem, exists, sort, keys, file_text, Ended, resolve_root, is_bounded, safe_join,
  place, write_files, start, with_files, embedded_files, with_opts, main,
}
use foundry_capital_markets.Bootstrap.Safety.{main_keeps_files, main_dry, main_outside}
use foundry_capital_markets.Bootstrap.Report.{reported, write_files-reported}
use foundry_capital_markets.Bootstrap.Rerun.{write_files_again}

-- A `path` of plain joins: no part of a path climbs.
abbrev posix : PathModule
posix = record {
  is_absolute = λ p. starts_with p (codes "/");
  absolute = λ p. p;
  resolve = λ root rel. root ++ b'/' ∷ rel;
  dirname = λ p. codes "/repo/scripts";
  sep = codes "/";
  ancestors = λ p. p ∷ [];
}

abbrev tree : FileSystem
tree = record {
  files = (codes "/repo/README.md", codes "mine\n") ∷ (codes "/etc/hosts", codes "x\n") ∷ [];
  directories = [];
  executable = [];
}

abbrev script : Str
script =
    open_marker
    ++ (codes "\n===== FILE: README.md =====\ntheirs\n===== FILE: a.sh =====\n\necho hi  \n\n"
        ++ close_marker)

abbrev root_args : List Str
root_args = codes "--root" ∷ codes "/repo" ∷ []

abbrev plain : Opts
plain = record defaults { root = some (codes "/repo") }

runner : Unit {0}
unfolding main with_opts with_files embedded_files load_payload parse_files resolve_root write_files
    safe_join place file_text sort keys parse_args starts_with set_key normalise_content exists
runner = tt

plain_parsed : parse_args root_args ≡ ok plain
unfolding parse_args
plain_parsed = refl

abbrev written : Ended
written = main posix (codes "/repo/scripts/b.mjs") script root_args tree

written_ends :
    (written.progress.created ≡ codes "a.sh" ∷ [])
    × (written.progress.skipped ≡ codes "README.md" ∷ [])
    × (at_key (codes "/repo/a.sh") written.progress.fs.files ≡ some (codes "echo hi\n"))
    × (written.failure ≡ none)
unfolding runner
written_ends = (refl, refl, refl, refl)

unsafe :
    (main posix []
      (open_marker ++ (codes "\n===== FILE: ../x =====\n" ++ close_marker))
      []
      tree).failure
    ≡ some (unsafe_payload_path (codes "../x"))
unfolding runner
unsafe = refl

main_keeps_files_example :
    at_key (codes "/repo/README.md") written.progress.fs.files ≡ some (codes "mine\n")
unfolding at_key
main_keeps_files_example =
    main_keeps_files posix (codes "/repo/scripts/b.mjs") script root_args tree plain plain_parsed
      (codes "/repo/README.md") (codes "mine\n") refl refl

abbrev dry_args : List Str
dry_args = codes "--dry-run" ∷ codes "--force" ∷ []

dry_parsed : parse_args dry_args ≡ ok (record defaults { dry_run = true; force = true })
unfolding parse_args
dry_parsed = refl

main_dry_example : (main posix [] script dry_args tree).progress.fs ≡ tree
main_dry_example = main_dry posix [] script dry_args tree _ dry_parsed refl

main_outside_example :
    at_key (codes "/etc/hosts") written.progress.fs.files ≡ at_key (codes "/etc/hosts") tree.files
unfolding is_bounded resolve_root
main_outside_example =
    main_outside posix (codes "/repo/scripts/b.mjs") script root_args tree plain plain_parsed
      (codes "/etc/hosts") refl

abbrev payload_files : List (Str × Str)
payload_files = (codes "README.md", codes "theirs") ∷ (codes "a.sh", codes "echo hi") ∷ []

abbrev run_once : Opts → Ended
run_once opts =
    write_files posix opts (codes "/repo") payload_files (codes "README.md" ∷ codes "a.sh" ∷ [])
      (start posix tree)

write_files-reported_example :
    Perm (reported (run_once defaults).progress) (codes "README.md" ∷ codes "a.sh" ∷ [])
unfolding runner
write_files-reported_example =
    write_files-reported posix defaults (codes "/repo") payload_files
      (codes "README.md" ∷ codes "a.sh" ∷ []) (start posix tree) refl

write_files_again_example :
    write_files posix defaults
      (codes "/repo")
      payload_files
      (codes "README.md" ∷ codes "a.sh" ∷ [])
      (start posix (run_once defaults).progress.fs)
    ≡ record {
      progress = record (start posix (run_once defaults).progress.fs) {
        skipped = codes "README.md" ∷ codes "a.sh" ∷ [];
      };
      failure = none;
    }
unfolding runner
write_files_again_example =
    write_files_again posix defaults defaults (codes "/repo") payload_files
      (codes "README.md" ∷ codes "a.sh" ∷ []) tree refl refl refl
