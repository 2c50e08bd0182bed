-- ===== src/Diagram/Validate/Accepting.antt =====
-- When the validator accepts a directory, by the texts of its files.
use foundry_capital_markets.Prelude.{
  ◌≡◌, refl, sym, ap, ◌∙◌, inl, inr, Bool, true, false, Option, List, [], ◌∷◌, map, arith,
  Bool-cases, is_empty, keep, In, Str, codes, ends_with,
}
use foundry_capital_markets.Diagram.Scene.{Element}
use foundry_capital_markets.Diagram.Validate.{fails, diagrams, exit_code}

abbrev pub is_document : Str → Bool
is_document name = ends_with name (codes ".excalidraw")

abbrev pub File : Type 0
File = Str × Str

abbrev pub parsed_files :
    (Str → Option (List Element)) → List File → List (Str × Option (List Element))
parsed_files parse files = map (λ (o : File). (o.0, parse o.1)) files

module _ (parse : Str → Option (List Element)) where
  none_fail :
      (files : List File)
      → ((o : File) → In o files → is_document o.0 ≡ true → fails (parse o.1) ≡ false)
      → keep (λ f. fails f.1) (diagrams (parsed_files parse files)) ≡ []
  unfolding diagrams keep
  none_fail [] h = refl
  none_fail (f ∷ fs) h =
      let rest = none_fail fs (λ o m. h o (inr m)) in
      elim (Bool-cases (is_document f.0)) [
        | inl e ↦ rw (e, keep, h f (inl refl) e) rest
        | inr e ↦ rw (e, keep) rest
      ]

  is_empty-diagrams :
      (files : List File) (o : File)
      → In o files
      → is_document o.0 ≡ true
      → is_empty (diagrams (parsed_files parse files)) ≡ false
  unfolding diagrams keep
  is_empty-diagrams [] o m d = elim m [ ]
  is_empty-diagrams (f ∷ fs) o m d = elim (Bool-cases (is_document f.0)) [
    | inl e ↦ rw (e, keep) refl
    | inr e ↦ elim m [
      | inl same ↦ ground (arith, sym (ap (λ (g : File). is_document g.0) same) ∙ d, e)
      | inr n ↦ rw (e, keep) (is_empty-diagrams fs o n d)
    ]
  ]

  -- A directory whose documents all pass, and that holds one, is accepted.
  pub exit_code-passing :
      (files : List File) (o : File)
      → ((f : File) → In f files → is_document f.0 ≡ true → fails (parse f.1) ≡ false)
      → In o files
      → is_document o.0 ≡ true
      → exit_code (parsed_files parse files) ≡ 0
  unfolding exit_code
  exit_code-passing files o pass m d = rw (is_empty-diagrams files o m d, none_fail files pass) refl
