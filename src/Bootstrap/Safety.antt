-- ===== src/Bootstrap/Safety.antt =====
-- What a run of bootstrap-repo.mjs leaves alone: existing files, a dry run's tree, and all that lies
-- outside the root.
use foundry_capital_markets.Prelude.{
  ◌≡◌, refl, ap, ◌≢◌, inl, inr, true, false, Option, none, some, List, [], ◌∷◌, arith, Bool-cases,
  any, Str, ◌===◌, ===_iff, ===_ne, at_key, at_key-set_key_ne,
}
use foundry_capital_markets.Bootstrap.Args.{Failure, Result, ok, err, Opts, parse_args}
use foundry_capital_markets.Bootstrap.Payload.{normalise_content}
use foundry_capital_markets.Bootstrap.Writer.{
  PathModule, FileSystem, exists, sort, keys, file_text, Progress, Ended, resolve_root, is_bounded,
  safe_join, write_file, place, write_files, start, with_files, embedded_files, with_opts, main,
}

any_of_at_key :
    (p : Str) (c : Str) (fs : List (Str × Str))
    → at_key p fs ≡ some c
    → any (λ f. f.0 === p) fs ≡ true
unfolding at_key any
any_of_at_key p c [] e = cc
any_of_at_key p c ((q, d) ∷ fs) e = ground (arith, any_of_at_key p c fs)

exists_of_at_key : (p c : Str) (fs : FileSystem) → at_key p fs.files ≡ some c → exists p fs ≡ true
unfolding exists
exists_of_at_key p c fs e = rw (any_of_at_key p c fs.files e)

module _ (path : PathModule) where
  -- One round does not touch a file that is there, unless `--force` is given.
  place_keeps :
      (opts : Opts) (rel target text : Str) (p : Progress) (q c : Str)
      → opts.force ≡ false
      → at_key q p.fs.files ≡ some c
      → at_key q (place path opts rel target text p).fs.files ≡ some c
  unfolding place write_file
  place_keeps opts rel target text p q c unforced there = elim (Bool-cases (target === q)) [
    | inl same ↦ ground (arith, exists_of_at_key q c p.fs there, ===_iff target q)
    | inr other ↦ ground (
      arith,
      at_key-set_key_ne target q (normalise_content text) p.fs.files (===_ne target q other),
    )
  ]

  write_files_keeps :
      (opts : Opts) (root : Str) (files : List (Str × Str)) (rels : List Str) (p : Progress)
      (q c : Str)
      → opts.force ≡ false
      → at_key q p.fs.files ≡ some c
      → at_key q (write_files path opts root files rels p).progress.fs.files ≡ some c
  unfolding write_files safe_join
  write_files_keeps opts root files [] p q c unforced there = there
  write_files_keeps opts root files (rel ∷ rels) p q c unforced there = ground (
    arith,
    write_files_keeps opts root files rels
        (place path opts rel (path.resolve root rel) (file_text rel files) p) q c unforced
        (place_keeps opts rel (path.resolve root rel) (file_text rel files) p q c unforced there),
  )

  place_dry :
      (opts : Opts) (rel target text : Str) (p : Progress)
      → opts.dry_run ≡ true
      → (place path opts rel target text p).fs ≡ p.fs
  unfolding place
  place_dry opts rel target text p dry = ground arith

  write_files_dry :
      (opts : Opts) (root : Str) (files : List (Str × Str)) (rels : List Str) (p : Progress)
      → opts.dry_run ≡ true
      → (write_files path opts root files rels p).progress.fs ≡ p.fs
  unfolding write_files safe_join
  write_files_dry opts root files [] p dry = refl
  write_files_dry opts root files (rel ∷ rels) p dry =
      let target = path.resolve root rel in
      ground (
        arith,
        write_files_dry opts root files rels (place path opts rel target (file_text rel files) p)
            dry,
        place_dry opts rel target (file_text rel files) p dry,
      )

  place_outside :
      (opts : Opts) (rel target text : Str) (p : Progress) (q : Str)
      → target ≢ q
      → at_key q (place path opts rel target text p).fs.files ≡ at_key q p.fs.files
  unfolding place write_file
  place_outside opts rel target text p q ne =
      ground (arith, at_key-set_key_ne target q (normalise_content text) p.fs.files ne)

  bounded-ne :
      (root target q : Str)
      → is_bounded path root target ≡ true
      → is_bounded path root q ≡ false
      → target ≢ q
  bounded-ne root target q h k e = cc (ap (is_bounded path root) e)

  write_files_outside :
      (opts : Opts) (root : Str) (files : List (Str × Str)) (rels : List Str) (p : Progress)
      (q : Str)
      → is_bounded path root q ≡ false
      → at_key q (write_files path opts root files rels p).progress.fs.files ≡ at_key q p.fs.files
  unfolding write_files safe_join
  write_files_outside opts root files [] p q out = refl
  write_files_outside opts root files (rel ∷ rels) p q out =
      let target = path.resolve root rel in
      elim (Bool-cases (is_bounded path root target)) [
        | inl inside ↦ ground (
          arith,
          write_files_outside opts root files rels
              (place path opts rel target (file_text rel files) p) q out,
          place_outside opts rel target (file_text rel files) p q
              (bounded-ne root target q inside out),
        )
        | inr beyond ↦ ground arith
      ]

  -- What holds of a run that writes nothing and of the loop's result holds of `main`'s.
  module _ (self src : Str) (argv : List Str) (fs : FileSystem) (opts : Opts)
      (P : Ended → Type 0) where
    with_files_ends :
        (r : Result (List (Str × Str)))
        → ((f : Option Failure) → P (record { progress = start path fs; failure = f }))
        → ((files : List (Str × Str))
            → P (
                write_files path opts
                  (resolve_root path self opts)
                  files
                  (sort (keys files))
                  (start path fs)))
        → P (with_files path self opts fs r)
    unfolding with_files
    with_files_ends (err e) idle wrote = idle (some e)
    with_files_ends (ok files) idle wrote = elim (Bool-cases opts.list) [
      | inl listing ↦ simp listing (idle none)
      | inr writing ↦ simp writing (wrote files)
    ]

    pub main_ends :
        parse_args argv ≡ ok opts
        → ((f : Option Failure) → P (record { progress = start path fs; failure = f }))
        → ((files : List (Str × Str))
            → P (
                write_files path opts
                  (resolve_root path self opts)
                  files
                  (sort (keys files))
                  (start path fs)))
        → P (main path self src argv fs)
    unfolding main with_opts
    main_ends parsed idle wrote = elim (Bool-cases opts.help) [
      | inl help ↦ simp (parsed, help) (idle none)
      | inr go ↦ simp (parsed, go) (with_files_ends (embedded_files path src) idle wrote)
    ]

module _ (path : PathModule) (self src : Str) (argv : List Str) (fs : FileSystem) (opts : Opts)
    (parsed : parse_args argv ≡ ok opts) where
  -- A run whose arguments are read and do not hold `--force` leaves the text of every file that is
  -- there as it was, whatever the payload holds and however the run ends.
  pub main_keeps_files :
      (q c : Str)
      → opts.force ≡ false
      → at_key q fs.files ≡ some c
      → at_key q (main path self src argv fs).progress.fs.files ≡ some c
  main_keeps_files q c unforced there =
      main_ends path self src argv fs opts (λ r. at_key q r.progress.fs.files ≡ some c) parsed
        (λ f. there)
        (λ files. write_files_keeps path opts _ files _ (start path fs) q c unforced there)

  -- A run whose arguments are read and hold `--dry-run` leaves the whole file system as it was.
  pub main_dry : opts.dry_run ≡ true → (main path self src argv fs).progress.fs ≡ fs
  main_dry dry =
      main_ends path self src argv fs opts (λ r. r.progress.fs ≡ fs) parsed (λ f. refl)
        (λ files. write_files_dry path opts _ files _ (start path fs) dry)

  -- A run whose arguments are read writes and changes no file outside the root that they set, with
  -- `--force` or without: a path that is neither the root nor below it reads after as before.
  pub main_outside :
      (q : Str)
      → is_bounded path (resolve_root path self opts) q ≡ false
      → at_key q (main path self src argv fs).progress.fs.files ≡ at_key q fs.files
  main_outside q out =
      main_ends path self src argv fs opts (λ r. at_key q r.progress.fs.files ≡ at_key q fs.files)
        parsed (λ f. refl) (λ files. write_files_outside path opts _ files _ (start path fs) q out)
