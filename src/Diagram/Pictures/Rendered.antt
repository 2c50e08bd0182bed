-- ===== src/Diagram/Pictures/Rendered.antt =====
-- What `render` gives, written and validated.
use mathlib.Core.Path.{subst}
use foundry_capital_markets.Prelude.{
  ◌≡◌, refl, sym, ap, ◌∙◌, ◌↔◌, ◌⊎◌, inl, inr, true, false, Option, some, List, [], ◌∷◌, some-inj,
  All, In, All-In, Str, starts_with, ends_with,
}
use foundry_capital_markets.Diagram.Scene.{Element, Scene, empty_scene}
use foundry_capital_markets.Diagram.Validate.{validate, fails, exit_code}
use foundry_capital_markets.Diagram.Validate.Accepting.{
  is_document, File, parsed_files, exit_code-passing,
}
use foundry_capital_markets.Diagram.Generator.{Rendered, svg_name, outputs}
use foundry_capital_markets.Diagram.Pictures.Catalogue.{Diagram, all_diagrams, render_one, render}
use foundry_capital_markets.Diagram.Pictures.Built.{Built}
use foundry_capital_markets.Diagram.Pictures.Valid.{all_diagrams-Built}

-- The names of a diagram's two files: the second is not a document's.
pub record IsNamed (d : Diagram) : Type 0 where
  pub document : is_document d.file ≡ true
  pub picture : is_document (svg_name d.file) ≡ false

IsNamed-of_tests :
    (d : Diagram) → is_document d.file ≡ true → is_document (svg_name d.file) ≡ false → IsNamed d
IsNamed-of_tests d a b = record { document = a; picture = b }

all_diagrams-IsNamed : All IsNamed all_diagrams
unfolding ends_with starts_with svg_name
all_diagrams-IsNamed = (
  IsNamed-of_tests _ refl refl,
  (
    IsNamed-of_tests _ refl refl,
    (
      IsNamed-of_tests _ refl refl,
      (IsNamed-of_tests _ refl refl, (IsNamed-of_tests _ refl refl, tt)),
    ),
  ),
)

module _ (to_json render_svg : Diagram → Scene → Str) where
  abbrev pub rendered_of : Diagram → Scene → Rendered
  rendered_of d s = record {
    file = d.file;
    svg_file = svg_name d.file;
    json = to_json d s;
    svg = render_svg d s;
  }

  -- What is rendered of a diagram is that of a scene that its builder draws, and that is valid.
  pub record IsOf (d : Diagram) (r : Rendered) : Type 0 where
    pub scene : Scene
    pub drawn : d.build empty_scene ≡ some (tt, scene)
    pub valid : validate scene.elements ≡ []
    pub same : r ≡ rendered_of d scene

  abbrev pub AreOf : List Diagram → List Rendered → Type 0
  AreOf [] [] = Unit
  AreOf [] (r ∷ rs) = ⊥
  AreOf (d ∷ ds) [] = ⊥
  AreOf (d ∷ ds) (r ∷ rs) = IsOf d r × AreOf ds rs

  render_one-Built :
      (d : Diagram)
      → Built d.build
      → (r : Rendered) × ((render_one to_json render_svg d ≡ some r) × IsOf d r)
  unfolding render_one
  render_one-Built d b = (
    rendered_of d b.scene,
    (
      rw (b.drawn, render_one) refl,
      record { scene = b.scene; drawn = b.drawn; valid = b.valid; same = refl },
    ),
  )

  pub render-Built :
      (ds : List Diagram)
      → All (λ (d : Diagram). Built d.build) ds
      → (rs : List Rendered) × ((render to_json render_svg ds ≡ some rs) × AreOf ds rs)
  unfolding render
  render-Built [] h = ([], (refl, tt))
  render-Built (d ∷ ds) (b, bs) =
      let (r, (e, one)) = render_one-Built d b in
      let (rs, (es, more)) = render-Built ds bs in (r ∷ rs, (rw (e, render, es) refl, (one, more)))

  -- The files that are written of a diagram.
  abbrev Writes : Diagram → File → Type 0
  Writes d o = (r : Rendered) × (IsOf d r × ((o ≡ (r.file, r.json)) ⊎ (o ≡ (r.svg_file, r.svg))))

  In-outputs :
      (ds : List Diagram) (rs : List Rendered) (o : File)
      → AreOf ds rs
      → In o (outputs rs)
      → (d : Diagram) × (In d ds × Writes d o)
  unfolding outputs
  In-outputs [] [] o h m = elim m [ ]
  In-outputs [] (r ∷ rs) o h m = elim h [ ]
  In-outputs (d ∷ ds) [] o h m = elim h [ ]
  In-outputs (d ∷ ds) (r ∷ rs) o (one, more) (inl e) = (d, (inl refl, (r, (one, inl e))))
  In-outputs (d ∷ ds) (r ∷ rs) o (one, more) (inr (inl e)) = (d, (inl refl, (r, (one, inr e))))
  In-outputs (d ∷ ds) (r ∷ rs) o (one, more) (inr (inr m)) =
      let (c, (n, w)) = In-outputs ds rs o more m in (c, (inr n, w))

  -- What `render` gives.
  abbrev pub rendered : List Rendered
  rendered = (render-Built all_diagrams all_diagrams-Built).0

  pub render-eq-rendered : render to_json render_svg all_diagrams ≡ some rendered
  render-eq-rendered = (render-Built all_diagrams all_diagrams-Built).1.0

  pub all_diagrams-AreOf :
      (rs : List Rendered)
      → render to_json render_svg all_diagrams ≡ some rs
      → AreOf all_diagrams rs
  all_diagrams-AreOf rs h =
      subst (AreOf all_diagrams) (some-inj (sym render-eq-rendered ∙ h))
        (render-Built all_diagrams all_diagrams-Built).1.1

  fails-valid :
      (o : Option (List Element)) (els : List Element)
      → o ≡ some els
      → validate els ≡ []
      → fails o ≡ false
  unfolding fails
  fails-valid o els e v = rw (e, fails, v) refl

  first_document :
      (rs : List Rendered)
      → AreOf all_diagrams rs
      → (o : File) × (In o (outputs rs) × (is_document o.0 ≡ true))
  unfolding outputs
  first_document [] h = elim h [ ]
  first_document (r ∷ rs) (one, more) =
      let named = all_diagrams-IsNamed.0 in
      (
        (r.file, r.json),
        (inl refl, ap (λ (q : Rendered). is_document q.file) one.same ∙ named.document),
      )

  -- The documents of `render`, written into a directory that holds nothing else, are accepted by the
  -- validator: its exit code is 0, whatever the order of the files. Reading a document has to give
  -- back the elements of the scene that it was made of.
  pub exit_code-render :
      (parse : Str → Option (List Element)) (rs : List Rendered) (files : List File)
      → ((d : Diagram) (s : Scene)
          → In d all_diagrams
          → d.build empty_scene ≡ some (tt, s)
          → parse (to_json d s) ≡ some s.elements)
      → render to_json render_svg all_diagrams ≡ some rs
      → ((o : File) → In o files ↔ In o (outputs rs))
      → exit_code (parsed_files parse files) ≡ 0
  exit_code-render parse rs files reads h written =
      let are = all_diagrams-AreOf rs h in
      let (o, (m, doc)) = first_document rs are in
      exit_code-passing parse files o passes ((written o).1 m) doc
    where
      passes_one :
          (d : Diagram) (f : File)
          → In d all_diagrams
          → Writes d f
          → is_document f.0 ≡ true
          → fails (parse f.1) ≡ false
      passes_one d f n (r, (of, inl e)) doc =
          fails-valid (parse f.1) of.scene.elements
            (ap (λ (g : File). parse g.1) e
              ∙ ap (λ (q : Rendered). parse q.json) of.same
              ∙ reads d of.scene n of.drawn)
            of.valid
      passes_one d f n (r, (of, inr e)) doc =
          let named = All-In IsNamed all_diagrams d all_diagrams-IsNamed n in
          let same =
            ap (λ (g : File). is_document g.0) e
            ∙ ap (λ (q : Rendered). is_document q.svg_file) of.same
            ∙ named.picture in
          cc (same, doc)

      passes : (f : File) → In f files → is_document f.0 ≡ true → fails (parse f.1) ≡ false
      passes f n doc =
          let (d, (k, w)) =
            In-outputs all_diagrams rs f (all_diagrams-AreOf rs h) ((written f).0 n) in
          passes_one d f k w doc
