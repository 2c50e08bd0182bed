-- ===== src/Diagram/Pictures/Tests.antt =====
-- A reader of the documents, for which a document is the name of its diagram; and a small row.
use foundry_capital_markets.Prelude.{
  ◌≡◌, refl, sym, ap, ◌∙◌, inr, true, false, Option, none, some, List, [], ◌∷◌, ◌++◌, drop, find,
  All, In, All-In, arith, Str, codes, ◌===◌, strip_prefix, starts_with, ends_with,
}
use foundry_capital_markets.Prelude.Int.{ℤ}
use foundry_capital_markets.Diagram.Geometry.{px}
use foundry_capital_markets.Diagram.Scene.{Element, Scene, empty_scene}
use foundry_capital_markets.Diagram.Shapes.{Placed}
use foundry_capital_markets.Diagram.Passing.{blank}
use foundry_capital_markets.Diagram.Validate.{exit_code}
use foundry_capital_markets.Diagram.Validate.Accepting.{parsed_files}
use foundry_capital_markets.Diagram.Generator.{Args, Rendered, svg_name, outputs, run}
use foundry_capital_markets.Diagram.Pictures.{Item, item, Ruler, columns, row_height, place_row}
use foundry_capital_markets.Diagram.Pictures.Catalogue.{Diagram, all_diagrams}
use foundry_capital_markets.Diagram.Pictures.Rows.{Row, Leaves, place_row-Row, place_row-eq-none}
use foundry_capital_markets.Diagram.Pictures.Rendered.{
  rendered, render-eq-rendered, exit_code-render,
}
use foundry_capital_markets.Diagram.Pictures.Regenerate.{names, run_check-render}

abbrev named_json : Diagram → Scene → Str
named_json d s = d.file

abbrev no_svg : Diagram → Scene → Str
no_svg d s = []

abbrev five : List Rendered
five = rendered named_json no_svg

abbrev elements_of : Diagram → Option (List Element)
elements_of d = elim (d.build empty_scene) [ none ↦ none | some (_, s) ↦ some s.elements ]

abbrev read_document : Str → Option (List Element)
read_document t = elim (find (λ (d : Diagram). d.file === t) all_diagrams) [
  | none ↦ none
  | some d ↦ elements_of d
]

read_each : All (λ (d : Diagram). read_document d.file ≡ elements_of d) all_diagrams
unfolding find ◌===◌
read_each = (refl, (refl, (refl, (refl, (refl, tt)))))

reads_back :
    (d : Diagram) (s : Scene)
    → In d all_diagrams
    → d.build empty_scene ≡ some (tt, s)
    → read_document (named_json d s) ≡ some s.elements
reads_back d s m e =
    All-In (λ (c : Diagram). read_document c.file ≡ elements_of c) all_diagrams d read_each m
    ∙ rw (e, elements_of) refl

exit_code-render_example : exit_code (parsed_files read_document (outputs five)) ≡ 0
exit_code-render_example =
    exit_code-render named_json no_svg read_document five (outputs five) reads_back
      (render-eq-rendered named_json no_svg) (λ o. ((λ m. m), (λ m. m)))

-- A join that leaves out a leading `./`, as path.join does.
abbrev plain : Str → Str
plain name = elim (strip_prefix (codes "./") name) [ some rest ↦ rest | none ↦ name ]

abbrev slash : Str → Str → Str
slash dir name = dir ++ b'/' ∷ plain name

joined_as_is : All (λ n. plain n ≡ n) (names all_diagrams)
unfolding svg_name ends_with starts_with strip_prefix
joined_as_is = (refl, (refl, (refl, (refl, (refl, (refl, (refl, (refl, (refl, (refl, tt))))))))))

abbrev same : Str → Str
same s = s

abbrev writing : Args
writing = record { out = codes "docs/diagrams"; check = false; help = false }

slash_differ :
    (m n : Str)
    → In m (names all_diagrams)
    → In n (names all_diagrams)
    → slash (codes "docs/diagrams") m ≡ slash (codes "docs/diagrams") n
    → m ≡ n
slash_differ m n i j e =
    sym (All-In (λ k. plain k ≡ k) (names all_diagrams) m joined_as_is i)
    ∙ ap (drop 14) e
    ∙ All-In (λ k. plain k ≡ k) (names all_diagrams) n joined_as_is j

run_check-render_example :
    let written = (run slash same five writing []).files in
    run slash same five (record writing { check = true }) written
    ≡ record { files = written; exit_code = 0 }
run_check-render_example =
    run_check-render slash named_json no_svg same five writing []
      (render-eq-rendered named_json no_svg) slash_differ refl refl

abbrev two_columns : Ruler
two_columns = columns (px 80) 2 (px 240) (px 40)

abbrev two_items : List Item
two_items = item "Router" "The only path to a model." ∷ item "Approvals" "The human gate." ∷ []

place_row-Row_example :
    (ps : List Placed) × (t : Scene) × (place_row two_columns (px 60) two_items empty_scene
      ≡ some (ps, t))
    × Row two_columns (px 60) (row_height two_items (px 240)) 0 two_items ps
    × Leaves empty_scene t ps
place_row-Row_example =
    place_row-Row two_columns (px 60) two_items empty_scene (omega arith) (omega arith) blank

-- Two boxes do not fit a ruler with one column.
place_row-eq-none_example :
    place_row (columns (px 80) 1 (px 240) (px 40)) (px 60) two_items empty_scene ≡ none
place_row-eq-none_example =
    place_row-eq-none (columns (px 80) 1 (px 240) (px 40)) (px 60) two_items empty_scene
      (inr (omega arith))

abbrev measured : Item → Option ℤ
measured i = none
