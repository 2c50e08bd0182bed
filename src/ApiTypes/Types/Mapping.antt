-- ===== src/ApiTypes/Types/Mapping.antt =====
-- What `mapType` makes of the texts of types: the TypeScript types with the same structure.
use foundry_capital_markets.Prelude.{
  ℕ, zero, suc, ◌≤◌, ◌<◌, ◌≡◌, refl, sym, ap, ◌∙◌, Bool, false, Option, none, some, ◌++◌,
  append-nil, arith, length, any, length-append, Str, codes, is_word, trim,
}
use foundry_capital_markets.ApiTypes.Blanks.{Chars, Chars-ne}
use foundry_capital_markets.ApiTypes.Scan.{◌>>=◌}
use foundry_capital_markets.ApiTypes.Types.{
  between, list_argument, dictionary_arguments, primitive, split_nullable, map_ts, map_type,
}
use foundry_capital_markets.ApiTypes.Types.Arguments.{
  between-append, between_of_Lacks, marked_line, marked_Stops, list_argument_of_list,
  list_argument_of_set, list_argument_of_dictionary, list_argument_of_word,
  dictionary_arguments_of_text,
}
use foundry_capital_markets.ApiTypes.Types.Structure.{
  CSharpType, named, list_of, set_of, dictionary_of, mark, type_text, name_in_ts, type_in_ts,
  IsWord, IsWritten, IsOwn,
}
use foundry_capital_markets.ApiTypes.Types.Texts.{
  text_Unbroken, Solid, word_Solid, text_Solid, split_nullable-mark,
}

-- The round of `map_ts` on a text without a mark.
map_bare : (Str → Option Str) → ℕ → Str → Str
map_bare inherited fuel type = elim (list_argument type) [
  | some inner ↦ map_ts inherited fuel inner ++ codes "[]"
  | none ↦ elim (between (codes "IReadOnlyDictionary<") type >>= dictionary_arguments) [
    | some (key, value) ↦
        codes "Partial<Record<"
        ++ (map_ts inherited fuel key
            ++ (codes ", " ++ (map_ts inherited fuel value ++ codes ">>")))
    | none ↦ elim (primitive inherited type) [ some ts ↦ ts | none ↦ type ]
  ]
]

module _ (inherited : Str → Option Str) where
  map_ts-mark :
      (fuel : ℕ) (s : Str) (q : Bool)
      → Solid s
      → map_ts inherited (suc fuel) (s ++ mark q) ≡ map_bare inherited fuel s
  unfolding map_ts map_bare
  map_ts-mark fuel s q w = ap (λ r. map_bare inherited fuel r.0) (split_nullable-mark s q w)

  map_bare_of_list :
      (fuel : ℕ) (s x : Str)
      → list_argument s ≡ some x
      → map_bare inherited fuel s ≡ map_ts inherited fuel x ++ codes "[]"
  unfolding map_bare
  map_bare_of_list fuel s x h = rw (h, map_bare) refl

  map_bare_of_dictionary :
      (fuel : ℕ) (s k v : Str)
      → dictionary_arguments s ≡ some (k, v)
      → map_bare inherited fuel (codes "IReadOnlyDictionary<" ++ (s ++ codes ">"))
        ≡ codes "Partial<Record<"
          ++ (map_ts inherited fuel k ++ (codes ", " ++ (map_ts inherited fuel v ++ codes ">>")))
  unfolding map_bare
  map_bare_of_dictionary fuel s k v h =
      rw
        (
          list_argument_of_dictionary (s ++ codes ">"),
          between-append (codes "IReadOnlyDictionary<") s,
          h,
          map_bare,
        )
        refl

  primitive_of_own :
      (n : Str) → inherited n ≡ none → primitive inherited n ≡ primitive (λ m. none) n
  unfolding primitive
  primitive_of_own n h = rw h refl

  map_bare_of_word :
      (fuel : ℕ) (n : Str)
      → Chars is_word n
      → inherited n ≡ none
      → map_bare inherited fuel n ≡ name_in_ts n
  unfolding map_bare is_word any
  map_bare_of_word fuel n h own =
      rw
        (
          list_argument_of_word n h,
          between_of_Lacks b'<' (codes "IReadOnlyDictionary<") n refl
              (Chars-ne is_word b'<' n refl h),
          primitive_of_own n own,
          map_bare,
        )
        refl

  length-part : (a b c : Str) → length a ≤ length ((a ++ b) ++ c)
  length-part a b c = grind (arith, length-append)

  length-last : (k a b c : Str) → length a ≤ length ((k ++ (codes ", " ++ (a ++ b))) ++ c)
  length-last k a b c = grind (arith, length-append)

  map_ts_of_word :
      (fuel : ℕ) (n : Str)
      → IsWord n
      → inherited n ≡ none
      → 0 < fuel
      → map_ts inherited fuel n ≡ name_in_ts n
  map_ts_of_word zero n w o h = absurd (omega (arith, h))
  map_ts_of_word (suc fuel) n w o h =
      ap (map_ts inherited (suc fuel)) (sym (append-nil n))
      ∙ map_ts-mark fuel n false (word_Solid n w)
      ∙ map_bare_of_word fuel n w.0 o

  -- With a round for each character and one more, `map_ts` reads a type and leaves its own mark out.
  map_ts-type_text :
      (t : CSharpType) (q : Bool) (fuel : ℕ)
      → IsWritten t
      → IsOwn inherited t
      → length (type_text t) < fuel
      → map_ts inherited fuel (type_text t ++ mark q) ≡ type_in_ts t
  map_ts-type_text t q zero w o h = absurd (omega (arith, h))
  map_ts-type_text (named n) q (suc fuel) w o h =
      map_ts-mark fuel n q (text_Solid (named n) w) ∙ map_bare_of_word fuel n w.0 o
  map_ts-type_text (list_of t r) q (suc fuel) w o h =
      map_ts-mark fuel _ q (text_Solid (list_of t r) w)
      ∙ map_bare_of_list fuel _ (type_text t ++ mark r)
          (list_argument_of_list _ (marked_line _ r (text_Solid t w) (text_Unbroken t w)))
      ∙ ap (λ s. s ++ codes "[]")
          (map_ts-type_text t r fuel w o
            (omega (arith, h, length-part (type_text t) (mark r) (codes ">"))))
  map_ts-type_text (set_of t r) q (suc fuel) w o h =
      map_ts-mark fuel _ q (text_Solid (set_of t r) w)
      ∙ map_bare_of_list fuel _ (type_text t ++ mark r)
          (list_argument_of_set _ (marked_line _ r (text_Solid t w) (text_Unbroken t w)))
      ∙ ap (λ s. s ++ codes "[]")
          (map_ts-type_text t r fuel w o
            (omega (arith, h, length-part (type_text t) (mark r) (codes ">"))))
  map_ts-type_text (dictionary_of k t r) q (suc fuel) (kw, w) (ko, o) h =
      map_ts-mark fuel _ q (text_Solid (dictionary_of k t r) (kw, w))
      ∙ map_bare_of_dictionary fuel _ k (type_text t ++ mark r) (
          dictionary_arguments_of_text k _ kw (marked_line _ r (text_Solid t w) (text_Unbroken t w))
            (marked_Stops _ r (text_Solid t w)))
      ∙ ap
          (λ s.
            codes "Partial<Record<"
            ++ (s ++ (codes ", " ++ (map_ts inherited fuel (type_text t ++ mark r) ++ codes ">>"))))
          (map_ts_of_word fuel k kw ko (omega (arith, h)))
      ∙ ap (λ s. codes "Partial<Record<" ++ (name_in_ts k ++ (codes ", " ++ (s ++ codes ">>"))))
          (map_ts-type_text t r fuel w o
            (omega (arith, h, length-last k (type_text t) (mark r) (codes ">"))))

  -- On the text of any type whose names and dictionary keys are words (no names that every object of
  -- JavaScript inherits), `mapType` gives the TypeScript type with the same structure: an array for a
  -- list or a set, a partial record for a dictionary, the primitives by their TypeScript names. It is
  -- nullable just where the whole type carries a `?`.
  pub map_type-type_text :
      (t : CSharpType) (q : Bool)
      → IsWritten t
      → IsOwn inherited t
      → map_type inherited (type_text t ++ mark q) ≡ record { ts = type_in_ts t; nullable = q }
  unfolding map_type
  map_type-type_text t q w o =
      ap (λ s. record { ts = s; nullable = (split_nullable (trim (type_text t ++ mark q))).1 })
        (map_ts-type_text t q _ w o (omega (arith, length-append (type_text t) (mark q))))
      ∙ ap (λ r. record { ts = type_in_ts t; nullable = r.1 })
          (split_nullable-mark (type_text t) q (text_Solid t w))
