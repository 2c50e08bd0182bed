-- ===== src/Bootstrap/Rerun.antt =====
-- A second run of bootstrap-repo.mjs finds every file there.
use mathlib.Core.Path.{subst}
use foundry_capital_markets.Prelude.{
  ◌≡◌, sym, ◌∙◌, inl, inr, Bool, true, false, none, List, [], ◌∷◌, ◌++◌, append-nil, append_assoc,
  arith, Bool-cases, any, All, Str, ◌===◌, ===_iff, ===_refl, set_key,
}
use foundry_capital_markets.Bootstrap.Args.{Opts}
use foundry_capital_markets.Bootstrap.Payload.{normalise_content}
use foundry_capital_markets.Bootstrap.Writer.{
  PathModule, FileSystem, exists, file_text, Progress, Ended, is_bounded, write_file, place,
  write_files, start,
}
use foundry_capital_markets.Bootstrap.Report.{
  some-ne-none, safe_join_inside, safe_join_beyond, write_files_inside,
}

module _ (path : PathModule) where
  -- A file that is there stays there.
  any-set_key :
      (q p c : Str) (fs : List (Str × Str))
      → any (λ f. f.0 === q) fs ≡ true
      → any (λ f. f.0 === q) (set_key p c fs) ≡ true
  unfolding any set_key
  any-set_key q p c [] h = cc
  any-set_key q p c ((r, d) ∷ fs) h =
      ground (arith, ===_iff r p, ===_iff r q, ===_iff p q, any-set_key q p c fs)

  any-set_key_self :
      (p c : Str) (fs : List (Str × Str)) → any (λ f. f.0 === p) (set_key p c fs) ≡ true
  unfolding any set_key
  any-set_key_self p c [] = rw ===_refl
  any-set_key_self p c ((r, d) ∷ fs) = ground (arith, ===_refl p, any-set_key_self p c fs)

  any_append_right :
      {A : Type 0} (t : A → Bool) (xs ys : List A) → any t ys ≡ true → any t (xs ++ ys) ≡ true
  unfolding any
  any_append_right t [] ys h = h
  any_append_right t (x ∷ xs) ys h = ground (arith, any_append_right t xs ys h)

  exists-write_file :
      (q rel target text : Str) (fs : FileSystem)
      → exists q fs ≡ true
      → exists q (write_file path rel target text fs) ≡ true
  unfolding exists write_file
  exists-write_file q rel target text fs h = ground (
    arith,
    any-set_key q target (normalise_content text) fs.files,
    any_append_right (λ d. d === q) (path.ancestors (path.dirname target)) fs.directories,
  )

  exists-write_file_self :
      (rel target text : Str) (fs : FileSystem)
      → exists target (write_file path rel target text fs) ≡ true
  unfolding exists write_file
  exists-write_file_self rel target text fs =
      rw (any-set_key_self target (normalise_content text) fs.files)

  exists-place :
      (opts : Opts) (q rel target text : Str) (p : Progress)
      → exists q p.fs ≡ true
      → exists q (place path opts rel target text p).fs ≡ true
  unfolding place
  exists-place opts q rel target text p h = ground (arith, exists-write_file q rel target text p.fs)

  exists-place_self :
      (opts : Opts) (rel target text : Str) (p : Progress)
      → opts.dry_run ≡ false
      → exists target (place path opts rel target text p).fs ≡ true
  unfolding place
  exists-place_self opts rel target text p wet =
      ground (arith, exists-write_file_self rel target text p.fs)

  exists-write_files :
      (opts : Opts) (root : Str) (files : List (Str × Str)) (rels : List Str) (q : Str)
      (p : Progress)
      → exists q p.fs ≡ true
      → exists q (write_files path opts root files rels p).progress.fs ≡ true
  unfolding write_files
  exists-write_files opts root files [] q p h = h
  exists-write_files opts root files (rel ∷ rels) q p h =
      elim (Bool-cases (is_bounded path root (path.resolve root rel))) [
        | inl inside ↦
            rw (safe_join_inside path root rel inside, write_files)
              (exists-write_files opts root files rels q _
                (exists-place opts q rel (path.resolve root rel) (file_text rel files) p h))
        | inr beyond ↦ rw (safe_join_beyond path root rel beyond, write_files) h
      ]

  bounded_of_done :
      (opts : Opts) (root : Str) (files : List (Str × Str)) (rel : Str) (rels : List Str)
      (p : Progress)
      → (write_files path opts root files (rel ∷ rels) p).failure ≡ none
      → is_bounded path root (path.resolve root rel) ≡ true
  unfolding write_files
  bounded_of_done opts root files rel rels p done =
      elim (Bool-cases (is_bounded path root (path.resolve root rel))) [
        | inl inside ↦ inside
        | inr beyond ↦
            absurd (some-ne-none (rw (safe_join_beyond path root rel beyond, write_files) at done))
      ]

  place_skip :
      (opts : Opts) (rel target text : Str) (p : Progress)
      → opts.force ≡ false
      → exists target p.fs ≡ true
      → place path opts rel target text p ≡ record p { skipped = p.skipped ++ rel ∷ [] }
  unfolding place
  place_skip opts rel target text p unforced there = simp (there, unforced)

  -- A target that may be written and that is there.
  abbrev pub IsThere : Str → FileSystem → Str → Type 0
  IsThere root fs rel =
      (is_bounded path root (path.resolve root rel) ≡ true)
      × (exists (path.resolve root rel) fs ≡ true)

  -- After a run that wrote, and did not fail, every target is there.
  write_files_exist :
      (opts : Opts) (root : Str) (files : List (Str × Str)) (rels : List Str) (p : Progress)
      → opts.dry_run ≡ false
      → (write_files path opts root files rels p).failure ≡ none
      → All (IsThere root (write_files path opts root files rels p).progress.fs) rels
  write_files_exist opts root files [] p wet done = tt
  write_files_exist opts root files (rel ∷ rels) p wet done =
      let target = path.resolve root rel in
      let p' = place path opts rel target (file_text rel files) p in
      let e = write_files_inside path opts root files rel rels p done in
      (
        (
          bounded_of_done opts root files rel rels p done,
          rw e (
              exists-write_files opts root files rels target p'
                (exists-place_self opts rel target (file_text rel files) p wet)),
        ),
        subst (λ (r : Ended). All (IsThere root r.progress.fs) rels) (sym e)
            (write_files_exist opts root files rels p' wet (rw e at done)),
      )

  -- Where every target is there, a run without `--force` skips every file and writes nothing.
  write_files_idle :
      (opts : Opts) (root : Str) (files : List (Str × Str)) (rels : List Str) (p : Progress)
      → opts.force ≡ false
      → All (IsThere root p.fs) rels
      → write_files path opts root files rels p
        ≡ record { progress = record p { skipped = p.skipped ++ rels }; failure = none }
  unfolding write_files
  write_files_idle opts root files [] p unforced there = rw append-nil
  write_files_idle opts root files (rel ∷ rels) p unforced ((inside, here), there) =
      let p' = record p { skipped = p.skipped ++ rel ∷ [] } in
      rw
        (
          safe_join_inside path root rel inside,
          write_files,
          place_skip opts rel (path.resolve root rel) (file_text rel files) p unforced here,
        )
        (write_files_idle opts root files rels p' unforced there ∙ rw append_assoc)

  -- A second run, without `--force`, over the tree that a run has written and that ended without
  -- a failure: it skips every file, and leaves the tree as it was.
  pub write_files_again :
      (opts again : Opts) (root : Str) (files : List (Str × Str)) (rels : List Str)
      (fs : FileSystem)
      → opts.dry_run ≡ false
      → again.force ≡ false
      → (write_files path opts root files rels (start path fs)).failure ≡ none
      → let written = (write_files path opts root files rels (start path fs)).progress.fs in
        write_files path again root files rels (start path written)
        ≡ record { progress = record (start path written) { skipped = rels }; failure = none }
  write_files_again opts again root files rels fs wet unforced done =
      write_files_idle again root files rels (start path _) unforced
        (write_files_exist opts root files rels (start path fs) wet done)
