-- ===== src/Diagram/Generator/Sync.antt =====
-- What `--check` says of the files, and what it says after they were written.
use foundry_capital_markets.Prelude.{
  ◌≡◌, refl, sym, ◌∙◌, ◌↔◌, inl, inr, true, false, some, List, [], ◌∷◌, map, arith, Option-cases,
  All, In, Str, ===_iff, set_key, at_key, at_key-set_key_self, at_key-set_key_ne,
}
use foundry_capital_markets.Diagram.Generator.{
  Args, Rendered, outputs, is_drift, compare_file, drift, write_outputs, run,
}

-- No two of the paths are the same.
abbrev pub Differ : List Str → Type 0
Differ [] = Unit
Differ (p ∷ ps) = (¬ In p ps) × Differ ps

module _ (join_path : Str → Str → Str) where
  abbrev pub paths : Str → List (Str × Str) → List Str
  paths dir os = map (λ (o : Str × Str). join_path dir o.0) os

  -- The files hold the outputs.
  abbrev pub Holds : Str → List (Str × Str) → List (Str × Str) → Type 0
  Holds dir files os = All (λ (o : Str × Str). at_key (join_path dir o.0) files ≡ some o.1) os

  is_drift-compare_file :
      (dir : Str) (files : List (Str × Str)) (name expected : Str)
      → (is_drift (compare_file join_path dir files (name, expected)) ≡ false)
        ↔ (at_key (join_path dir name) files ≡ some expected)
  unfolding compare_file
  is_drift-compare_file dir files name expected =
      elim (Option-cases (at_key (join_path dir name) files)) [
        | inl gone ↦ rw (gone, compare_file) ((λ h. cc), λ h. cc)
        | inr (t, there) ↦ rw (there, compare_file) (ground (arith, ===_iff t expected))
      ]

  drift-eq-zero :
      (dir : Str) (files os : List (Str × Str))
      → (drift join_path dir files os ≡ 0) ↔ Holds dir files os
  unfolding drift
  drift-eq-zero dir files [] = ((λ e. tt), λ h. refl)
  drift-eq-zero dir files ((name, expected) ∷ os) =
      ground (arith, is_drift-compare_file dir files name expected, drift-eq-zero dir files os)

  at_key-write_outputs :
      (dir q : Str) (os files : List (Str × Str))
      → ¬ In q (paths dir os)
      → at_key q (write_outputs join_path dir os files) ≡ at_key q files
  unfolding write_outputs
  at_key-write_outputs dir q [] files h = refl
  at_key-write_outputs dir q ((name, c) ∷ os) files h =
      at_key-write_outputs dir q os (set_key (join_path dir name) c files) (λ m. h (inr m))
      ∙ at_key-set_key_ne (join_path dir name) q c files (λ e. h (inl (sym e)))

  Holds-write_outputs :
      (dir : Str) (os files : List (Str × Str))
      → Differ (paths dir os)
      → Holds dir (write_outputs join_path dir os files) os
  unfolding write_outputs
  Holds-write_outputs dir [] files d = tt
  Holds-write_outputs dir ((name, c) ∷ os) files (fresh, d) = (
    at_key-write_outputs dir (join_path dir name) os (set_key (join_path dir name) c files) fresh
        ∙ at_key-set_key_self (join_path dir name) c files,
    Holds-write_outputs dir os (set_key (join_path dir name) c files) d,
  )

  -- With `--check` a run changes no file, and its exit code is 0 exactly when each diagram's two files
  -- are there and hold what is generated.
  pub run_check :
      (resolve : Str → Str) (rendered : List Rendered) (args : Args) (files : List (Str × Str))
      → args.help ≡ false
      → args.check ≡ true
      → ((run join_path resolve rendered args files).files ≡ files)
        × (((run join_path resolve rendered args files).exit_code ≡ 0)
            ↔ Holds (resolve args.out) files (outputs rendered))
  unfolding run
  run_check resolve rendered args files plain checking =
      ground (arith, drift-eq-zero (resolve args.out) files (outputs rendered))

  -- A run that writes leaves files that pass the check: the run with `--check` that follows it, over
  -- the same diagrams and directory, ends with exit code 0 and changes nothing. The paths that are
  -- written have to differ from each other.
  pub run_check-run :
      (resolve : Str → Str) (rendered : List Rendered) (args : Args) (files : List (Str × Str))
      → args.help ≡ false
      → args.check ≡ false
      → Differ (paths (resolve args.out) (outputs rendered))
      → let written = (run join_path resolve rendered args files).files in
        run join_path resolve rendered (record args { check = true }) written
        ≡ record { files = written; exit_code = 0 }
  unfolding run
  run_check-run resolve rendered args files plain writing apart =
      let dir = resolve args.out in
      let os = outputs rendered in
      let done =
        (drift-eq-zero dir (write_outputs join_path dir os files) os).1
          (Holds-write_outputs dir os files apart) in
      ground (arith, done)
