-- ===== src/Bootstrap/Report.antt =====
-- The report of bootstrap-repo.mjs: each file stands in one list of it.
use mathlib.Core.List.{Perm, perm_middle}
use mathlib.Core.List.Perm
use foundry_capital_markets.Prelude.{
  ◌≡◌, refl, ◌≢◌, inl, inr, true, false, none, some, List, [], ◌∷◌, ◌++◌, append-nil, append_assoc,
  Bool-cases, Str,
}
use foundry_capital_markets.Bootstrap.Args.{outside_root, ok, err, Opts}
use foundry_capital_markets.Bootstrap.Writer.{
  PathModule, exists, str_leb, insert_sorted, sort, file_text, Progress, is_bounded, safe_join,
  place, write_files,
}

-- All that a report names.
abbrev pub reported : Progress → List Str
reported p = p.created ++ (p.skipped ++ p.overwritten)

insert_sorted-perm : (k : Str) (ks : List Str) → Perm (insert_sorted k ks) (k ∷ ks)
unfolding insert_sorted
insert_sorted-perm k [] = Perm.refl _
insert_sorted-perm k (j ∷ js) = elim (Bool-cases (str_leb k j)) [
  | inl before ↦ rw before (Perm.refl _)
  | inr behind ↦ rw behind (Perm.trans (Perm.cons j (insert_sorted-perm k js)) (Perm.swap k j js))
]

pub sort-perm : (ks : List Str) → Perm (sort ks) ks
unfolding sort
sort-perm [] = Perm.refl _
sort-perm (k ∷ ks) = Perm.trans (insert_sorted-perm k (sort ks)) (Perm.cons k (sort-perm ks))

-- One more name at the end of one of the three lists.
add_created : (a b c : List Str) (r : Str) → Perm ((a ++ r ∷ []) ++ (b ++ c)) (r ∷ (a ++ (b ++ c)))
add_created a b c r = rw append_assoc (perm_middle a (b ++ c))

add_skipped : (a b c : List Str) (r : Str) → Perm (a ++ ((b ++ r ∷ []) ++ c)) (r ∷ (a ++ (b ++ c)))
add_skipped a b c r =
    simp append_assoc
      (rw (← append_assoc a b (r ∷ c), ← append_assoc a b c) (perm_middle (a ++ b) c))

add_overwritten :
    (a b c : List Str) (r : Str) → Perm (a ++ (b ++ (c ++ r ∷ []))) (r ∷ (a ++ (b ++ c)))
add_overwritten a b c r =
    rw (← append_assoc b c (r ∷ []), ← append_assoc a (b ++ c) (r ∷ []))
      (Perm.trans (perm_middle (a ++ (b ++ c)) [])
        (rw append-nil (Perm.refl (r ∷ (a ++ (b ++ c))))))

pub some-ne-none {ℓ} : {A : Type ℓ} {a : A} → some a ≢ none
some-ne-none = cc

module _ (path : PathModule) where
  -- A round adds its file to one of the lists.
  place-reported :
      (opts : Opts) (rel target text : Str) (p : Progress)
      → Perm (reported (place path opts rel target text p)) (rel ∷ reported p)
  unfolding place
  place-reported opts rel target text p = elim (Bool-cases (exists target p.fs)) [
    | inr absent ↦ simp absent (add_created p.created p.skipped p.overwritten rel)
    | inl there ↦ elim (Bool-cases opts.force) [
      | inl forced ↦ simp (there, forced) (add_overwritten p.created p.skipped p.overwritten rel)
      | inr plain ↦ simp (there, plain) (add_skipped p.created p.skipped p.overwritten rel)
    ]
  ]

  pub safe_join_inside :
      (root rel : Str)
      → is_bounded path root (path.resolve root rel) ≡ true
      → safe_join path root rel ≡ ok (path.resolve root rel)
  unfolding safe_join
  safe_join_inside root rel h = rw h

  pub safe_join_beyond :
      (root rel : Str)
      → is_bounded path root (path.resolve root rel) ≡ false
      → safe_join path root rel ≡ err (outside_root rel)
  unfolding safe_join
  safe_join_beyond root rel h = rw h

  -- A loop that does not fail has joined its first path and gone on.
  pub write_files_inside :
      (opts : Opts) (root : Str) (files : List (Str × Str)) (rel : Str) (rels : List Str)
      (p : Progress)
      → (write_files path opts root files (rel ∷ rels) p).failure ≡ none
      → write_files path opts root files (rel ∷ rels) p
        ≡ write_files path opts root files rels
            (place path opts rel (path.resolve root rel) (file_text rel files) p)
  unfolding write_files
  write_files_inside opts root files rel rels p done =
      elim (Bool-cases (is_bounded path root (path.resolve root rel))) [
        | inl inside ↦ rw (safe_join_inside root rel inside, write_files) refl
        | inr beyond ↦
            absurd (some-ne-none (rw (safe_join_beyond root rel beyond, write_files) at done))
      ]

  -- A run that does not fail reports each of its files once: the created, the skipped and the
  -- overwritten together are a reordering of the files.
  pub write_files-reported :
      (opts : Opts) (root : Str) (files : List (Str × Str)) (rels : List Str) (p : Progress)
      → (write_files path opts root files rels p).failure ≡ none
      → Perm (reported (write_files path opts root files rels p).progress) (rels ++ reported p)
  write_files-reported opts root files [] p done = unfold write_files in Perm.refl _
  write_files-reported opts root files (rel ∷ rels) p done =
      let e = write_files_inside opts root files rel rels p done in
      let p' = place path opts rel (path.resolve root rel) (file_text rel files) p in
      rw e (
        Perm.trans (write_files-reported opts root files rels p' (rw e at done)) (
          Perm.trans
            (Perm.append (Perm.refl rels)
              (place-reported opts rel (path.resolve root rel) (file_text rel files) p))
            (perm_middle rels (reported p))))
