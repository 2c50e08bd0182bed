-- ===== src/ApiTypes/Emit/Complete.antt =====
-- Nothing that is to be exported is left out of the generated file without an error.
use mathlib.Core.Path.{subst}
use foundry_capital_markets.ApiTypes.Types.{Js}
use foundry_capital_markets.Prelude.{
  ◌≡◌, refl, sym, ap, ◌∙◌, ◌≢◌, ◌↔◌, ◌⊎◌, inl, inr, true, false, Option, none, some, List, [], ◌∷◌,
  ◌++◌, append_assoc, arith, if◌then◌else◌, Option-cases, is_empty, In, In-append_left,
  In-append_right, In-append, In-keep, In-keep_intro, append-eq-nil, Str, join, newline, at_key,
}
use foundry_capital_markets.ApiTypes.Parse.{strip_comments, parse_enums, Property, parse_records}
use foundry_capital_markets.ApiTypes.Emit.{
  exported_records, exported_enums, header_lines, enum_lines, record_lines, Generated, generated,
  types_missing, lacking, blocks, all_lines, generate,
}

-- The lines of a block stand among other lines.
abbrev pub Holds : List Str → List Str → Type 0
Holds block lines = (front : List Str) × (back : List Str) × (lines ≡ front ++ (block ++ back))

Holds-append_left : (b xs ys : List Str) → Holds b xs → Holds b (xs ++ ys)
Holds-append_left b xs ys (f, r, e) = (
  f,
  r ++ ys,
  ap (λ t. t ++ ys) e ∙ append_assoc f (b ++ r) ys ∙ ap (λ t. f ++ t) (append_assoc b r ys),
)

Holds-append_right : (b xs ys : List Str) → Holds b ys → Holds b (xs ++ ys)
Holds-append_right b xs ys (f, r, e) =
    (xs ++ f, r, ap (λ t. xs ++ t) e ∙ sym (append_assoc xs f (b ++ r)))

Holds-self : (b xs : List Str) → Holds b (b ++ xs)
Holds-self b xs = ([], xs, refl)

module _ {V : Type 0} where
  none_iff : (o : Option V) → ((elim o [ none ↦ true | some v ↦ false ]) ≡ true) ↔ (o ≡ none)
  none_iff none = ((λ e. refl), (λ e. refl))
  none_iff (some v) = ((λ e. ground (arith, e)), (λ e. ground (arith, e)))

  lacking_iff :
      (m : List (Str × V)) (names : List Str) (n : Str)
      → In n (lacking m names) ↔ (In n names × (at_key n m ≡ none))
  unfolding lacking
  lacking_iff m names n = (
    (λ i.
        let (there, gone) =
          In-keep (λ k. elim (at_key k m) [ none ↦ true | some v ↦ false ]) n names i in
        (there, (none_iff (at_key n m)).0 gone)),
    (λ (there, gone).
        In-keep_intro (λ k. elim (at_key k m) [ none ↦ true | some v ↦ false ]) n names there
          ((none_iff (at_key n m)).1 gone)),
  )

  blocks-Holds :
      (block : Str → V → List Str) (m : List (Str × V)) (names : List Str) (n : Str) (v : V)
      → In n names
      → at_key n m ≡ some v
      → Holds (block n v) (blocks block m names)
  unfolding blocks
  blocks-Holds block m [] n v i h = elim i [ ]
  blocks-Holds block m (p ∷ ps) n v (inl e) h =
      subst
        (λ o. Holds (block n v) ((elim o [ none ↦ [] | some w ↦ block p w ]) ++ blocks block m ps))
        (sym h ∙ ap (λ k. at_key k m) e)
        (subst (λ k. Holds (block n v) (block k v ++ blocks block m ps)) e
          (Holds-self (block n v) (blocks block m ps)))
  blocks-Holds block m (p ∷ ps) n v (inr i) h =
      Holds-append_right (block n v) (elim (at_key p m) [ none ↦ [] | some w ↦ block p w ])
        (blocks block m ps) (blocks-Holds block m ps n v i h)

  -- Every name has a block, if none is lacking.
  all_blocks :
      (block : Str → V → List Str) (m : List (Str × V)) (names : List Str) (n : Str)
      → lacking m names ≡ []
      → In n names
      → (v : V) × ((at_key n m ≡ some v) × Holds (block n v) (blocks block m names))
  all_blocks block m names n h i = elim (Option-cases (at_key n m)) [
    | inl e ↦ absurd (subst (In n) h ((lacking_iff m names n).1 (i, e)))
    | inr (v, e) ↦ (v, (e, blocks-Holds block m names n v i e))
  ]

-- The text of the sources that the two parsers read.
module _ (js : Js) (sources : Str) where
  abbrev pub enums : List (Str × List Str)
  enums = parse_enums (strip_comments sources)

  abbrev pub records : List (Str × List Property)
  records = parse_records (strip_comments sources)

  -- A type to be exported that was not found.
  abbrev pub IsMissing : Str → Type 0
  IsMissing n =
      (In n exported_enums × (at_key n enums ≡ none))
      ⊎ (In n exported_records × (at_key n records ≡ none))

  -- What a result says of the sources.
  abbrev pub Reports : Generated → Type 0
  Reports (generated text) =
      (text ≡ join (newline ∷ []) (all_lines js enums records))
      × (((n : Str)
            → In n exported_enums
            → (members : List Str) × ((at_key n enums ≡ some members)
                × Holds (enum_lines n members) (all_lines js enums records)))
          × ((n : Str)
              → In n exported_records
              → (props : List Property) × ((at_key n records ≡ some props)
                  × Holds (record_lines js n props) (all_lines js enums records))))
  Reports (types_missing gone) =
      (gone ≢ [])
      × ((n : Str)
          → In n gone ↔ (
              (In n exported_enums × (at_key n enums ≡ none))
              ⊎ (In n exported_records × (at_key n records ≡ none))))

  gone_iff :
      (n : Str)
      → In n (lacking enums exported_enums ++ lacking records exported_records) ↔ (
          (In n exported_enums × (at_key n enums ≡ none))
          ⊎ (In n exported_records × (at_key n records ≡ none)))
  gone_iff n = (
    (λ i. elim (In-append n (lacking enums exported_enums) (lacking records exported_records) i) [
      | inl a ↦ inl ((lacking_iff enums exported_enums n).0 a)
      | inr b ↦ inr ((lacking_iff records exported_records n).0 b)
    ]),
    (λ d. elim d [
      | inl a ↦ In-append_left n _ _ ((lacking_iff enums exported_enums n).1 a)
      | inr b ↦
          In-append_right n (lacking enums exported_enums) _
            ((lacking_iff records exported_records n).1 b)
    ]),
  )

  enum_stands :
      (block : List Str)
      → Holds block (blocks enum_lines enums exported_enums)
      → Holds block (all_lines js enums records)
  unfolding all_lines
  enum_stands block h =
      Holds-append_right block header_lines _
        (Holds-append_left block (blocks enum_lines enums exported_enums) _ h)

  record_stands :
      (block : List Str)
      → Holds block (blocks (record_lines js) records exported_records)
      → Holds block (all_lines js enums records)
  unfolding all_lines
  record_stands block h =
      Holds-append_right block header_lines _
        (Holds-append_right block (blocks enum_lines enums exported_enums) _ h)

  all_there :
      lacking enums exported_enums ++ lacking records exported_records ≡ []
      → Reports (generated (join (newline ∷ []) (all_lines js enums records)))
  all_there h =
      let (e, r) =
        append-eq-nil (lacking enums exported_enums) (lacking records exported_records) h in
      (
        refl,
        (
          (λ n i.
              let (v, (found, lines)) = all_blocks enum_lines enums exported_enums n e i in
              (v, (found, enum_stands (enum_lines n v) lines))),
          (λ n i.
              let (v, (found, lines)) =
                all_blocks (record_lines js) records exported_records n r i in
              (v, (found, record_stands (record_lines js n v) lines))),
        ),
      )

  reported :
      (gone : List Str)
      → lacking enums exported_enums ++ lacking records exported_records ≡ gone
      → Reports (
          if is_empty gone
          then generated (join (newline ∷ []) (all_lines js enums records))
          else types_missing gone)
  reported [] h = all_there h
  reported (g ∷ gone) h =
      ((λ z. ground (arith, z)), subst (λ l. (n : Str) → In n l ↔ IsMissing n) h gone_iff)

  -- `generate` leaves nothing out in silence. Either it gives the joined lines, and then each enum and
  -- each record that is to be exported was found in the sources and its block of lines stands in the
  -- text; or it fails, with a list that is not empty and names just the types to be exported that
  -- were not found.
  pub generate-Reports : Reports (generate js sources)
  unfolding generate
  generate-Reports = reported _ refl
