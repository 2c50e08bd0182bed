-- ===== src/Diagram/Pictures/Regenerate.antt =====
-- The diagrams, written and then compared with `--check`.
use mathlib.Core.Path.{subst}
use foundry_capital_markets.Prelude.{
  ◌≡◌, refl, sym, ap, ◌∙◌, inl, inr, Bool, true, false, not, ◌&&◌, some, List, [], ◌∷◌, map, arith,
  any, In, Str, ◌===◌, ===_iff, starts_with, ends_with,
}
use foundry_capital_markets.Diagram.Scene.{Scene}
use foundry_capital_markets.Diagram.Generator.{Args, Rendered, svg_name, outputs, run}
use foundry_capital_markets.Diagram.Generator.Sync.{Differ, paths, run_check-run}
use foundry_capital_markets.Diagram.Pictures.Catalogue.{Diagram, all_diagrams, render}
use foundry_capital_markets.Diagram.Pictures.Rendered.{AreOf, all_diagrams-AreOf}

-- The names of the files, in the order in which they are written.
abbrev pub names : List Diagram → List Str
names [] = []
names (d ∷ ds) = d.file ∷ svg_name d.file ∷ names ds

all_differ : List Str → Bool
all_differ [] = true
all_differ (n ∷ ns) = not (any (λ m. n === m) ns) && all_differ ns

Differ-of_test : (ns : List Str) → all_differ ns ≡ true → Differ ns
unfolding all_differ any
Differ-of_test [] h = tt
Differ-of_test (n ∷ ns) h = (absent ns (ground (arith, h)), Differ-of_test ns (ground (arith, h)))
  where
    absent : (ms : List Str) → any (λ m. n === m) ms ≡ false → ¬ In n ms
    absent [] e m = m
    absent (m ∷ ms) e (inl same) = ground (arith, e, ===_iff n m, same)
    absent (m ∷ ms) e (inr i) = absent ms (ground (arith, e)) i

names-Differ : Differ (names all_diagrams)
unfolding all_differ ◌===◌ svg_name ends_with starts_with any
names-Differ = Differ-of_test (names all_diagrams) refl

module _ (join_path : Str → Str → Str) (to_json render_svg : Diagram → Scene → Str) where
  Differ-map :
      (dir : Str) (ns : List Str)
      → ((m n : Str) → In m ns → In n ns → join_path dir m ≡ join_path dir n → m ≡ n)
      → Differ ns
      → Differ (map (join_path dir) ns)
  Differ-map dir [] apart h = tt
  Differ-map dir (n ∷ ns) apart (away, h) = (
    (λ i. away (back ns (λ m k. apart n m (inl refl) (inr k)) i)),
    Differ-map dir ns (λ k m i j. apart k m (inr i) (inr j)) h,
  )
    where
      back :
          (ms : List Str)
          → ((m : Str) → In m ms → join_path dir n ≡ join_path dir m → n ≡ m)
          → In (join_path dir n) (map (join_path dir) ms)
          → In n ms
      back [] same i = i
      back (m ∷ ms) same (inl e) = inl (same m (inl refl) e)
      back (m ∷ ms) same (inr i) = inr (back ms (λ k j. same k (inr j)) i)

  paths-names :
      (dir : Str) (ds : List Diagram) (rs : List Rendered)
      → AreOf to_json render_svg ds rs
      → paths join_path dir (outputs rs) ≡ map (join_path dir) (names ds)
  unfolding outputs
  paths-names dir [] [] h = refl
  paths-names dir [] (r ∷ rs) h = elim h [ ]
  paths-names dir (d ∷ ds) [] h = elim h [ ]
  paths-names dir (d ∷ ds) (r ∷ rs) (one, more) =
      ap
        (λ (q : Rendered).
          join_path dir q.file ∷ join_path dir q.svg_file ∷ paths join_path dir (outputs rs))
        one.same
      ∙ ap (λ ps. join_path dir d.file ∷ join_path dir (svg_name d.file) ∷ ps)
          (paths-names dir ds rs more)

  -- A run that writes the diagrams leaves files that are in sync: the run with `--check` behind it
  -- ends with exit code 0 and changes nothing. `path.join` has to give paths that differ for the ten
  -- names of the diagrams' files, which are plain: of other names nothing is asked.
  pub run_check-render :
      (resolve : Str → Str) (rs : List Rendered) (args : Args) (files : List (Str × Str))
      → render to_json render_svg all_diagrams ≡ some rs
      → ((m n : Str)
          → In m (names all_diagrams)
          → In n (names all_diagrams)
          → join_path (resolve args.out) m ≡ join_path (resolve args.out) n
          → m ≡ n)
      → args.help ≡ false
      → args.check ≡ false
      → let written = (run join_path resolve rs args files).files in
        run join_path resolve rs (record args { check = true }) written
        ≡ record { files = written; exit_code = 0 }
  run_check-render resolve rs args files h apart plain writing =
      run_check-run join_path resolve rs args files plain writing (
        subst Differ
          (sym (
            paths-names (resolve args.out) all_diagrams rs
              (all_diagrams-AreOf to_json render_svg rs h)))
          (Differ-map (resolve args.out) (names all_diagrams) apart names-Differ))
