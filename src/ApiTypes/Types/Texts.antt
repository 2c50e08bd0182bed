-- ===== src/ApiTypes/Types/Texts.antt =====
-- The texts of types: no line breaks, no blanks at either end, and a mark that is read off.
use foundry_capital_markets.Prelude.{
  ℕ, ◌≡◌, refl, sym, ap, ◌∙◌, ◌≢◌, Bool, true, false, not, none, some, [], ◌∷◌, ◌++◌, append-nil,
  append_assoc, arith, all, All-append, Str, codes, is_space, is_word, trim,
}
use foundry_capital_markets.ApiTypes.Blanks.{Chars, Stops, word-space, Stops-of_word}
use foundry_capital_markets.ApiTypes.Types.{strip_suffix, is_break, split_nullable}
use foundry_capital_markets.ApiTypes.Types.Ends.{
  trim_solid, strip_suffix-append, strip_suffix_ne, last_char,
}
use foundry_capital_markets.ApiTypes.Types.Structure.{
  CSharpType, named, list_of, set_of, dictionary_of, mark, type_text, IsWord, IsWritten,
}

-- The characters of a type's text: none breaks a line.
abbrev pub Unbroken : Str → Type 0
Unbroken = Chars (λ c. not (is_break c))

word-break : (c : ℕ) → is_word c ≡ true → not (is_break c) ≡ true
unfolding is_word is_break
word-break c h = ground arith

pub word_Unbroken : (w : Str) → Chars is_word w → Unbroken w
word_Unbroken [] h = tt
word_Unbroken (c ∷ w) (x, h) = (word-break c x, word_Unbroken w h)

mark-Unbroken : (q : Bool) → Unbroken (mark q)
unfolding is_break
mark-Unbroken true = (refl, tt)
mark-Unbroken false = tt

pub join_Unbroken : (s t : Str) → Unbroken s → Unbroken t → Unbroken (s ++ t)
join_Unbroken = All-append (λ c. not (is_break c) ≡ true)

Unbroken-of_all : (s : Str) → all (λ c. not (is_break c)) s ≡ true → Unbroken s
unfolding all
Unbroken-of_all [] h = tt
Unbroken-of_all (c ∷ s) h = ground (arith, h, Unbroken-of_all s)

pub mark_join : (s : Str) (q : Bool) → Unbroken s → Unbroken (s ++ mark q)
mark_join s q h = join_Unbroken s (mark q) h (mark-Unbroken q)

around_Unbroken :
    (p s q : Str)
    → all (λ c. not (is_break c)) p ≡ true
    → Unbroken s
    → all (λ c. not (is_break c)) q ≡ true
    → Unbroken (p ++ (s ++ q))
around_Unbroken p s q h k l =
    join_Unbroken p (s ++ q) (Unbroken-of_all p h) (join_Unbroken s q k (Unbroken-of_all q l))

pub text_Unbroken : (t : CSharpType) → IsWritten t → Unbroken (type_text t)
unfolding is_break all
text_Unbroken (named n) (h, _) = word_Unbroken n h
text_Unbroken (list_of t q) h =
    around_Unbroken (codes "IReadOnlyList<") (type_text t ++ mark q) (codes ">") refl
      (mark_join (type_text t) q (text_Unbroken t h)) refl
text_Unbroken (set_of t q) h =
    around_Unbroken (codes "IReadOnlySet<") (type_text t ++ mark q) (codes ">") refl
      (mark_join (type_text t) q (text_Unbroken t h)) refl
text_Unbroken (dictionary_of k t q) ((h, _), g) =
    around_Unbroken (codes "IReadOnlyDictionary<") (k ++ (codes ", " ++ (type_text t ++ mark q)))
      (codes ">") refl
      (join_Unbroken k (codes ", " ++ (type_text t ++ mark q)) (word_Unbroken k h) (
        join_Unbroken (codes ", ") (type_text t ++ mark q) (Unbroken-of_all (codes ", ") refl)
          (mark_join (type_text t) q (text_Unbroken t g))))
      refl

-- A text that begins and ends with other than blanks, and not with a mark.
pub record Solid (s : Str) : Type 0 where
  pub front : Str
  pub end : ℕ
  pub begins : Stops is_space s
  pub ends : s ≡ front ++ end ∷ []
  pub end_ink : is_space end ≡ false
  pub end_plain : b'?' ≢ end

word_plain : (c : ℕ) → is_word c ≡ true → b'?' ≢ c
unfolding is_word
word_plain c h = λ e. ground (arith, h, e)

pub word_Solid : (n : Str) → IsWord n → Solid n
word_Solid n (h, ne) =
    let (u, d, (e, x)) = last_char is_word n h ne in
    record {
      front = u;
      end = d;
      begins = Stops-of_word n h;
      ends = e;
      end_ink = word-space d x;
      end_plain = word_plain d x;
    }

closed_Solid : (c : ℕ) (p s : Str) → is_space c ≡ false → Solid ((c ∷ p) ++ (s ++ codes ">"))
unfolding is_space
closed_Solid c p s h = record {
  front = (c ∷ p) ++ s;
  end = b'>';
  begins = h;
  ends = sym (append_assoc (c ∷ p) s (codes ">"));
  end_ink = refl;
  end_plain = omega arith;
}

pub text_Solid : (t : CSharpType) → IsWritten t → Solid (type_text t)
unfolding is_space
text_Solid (named n) h = word_Solid n h
text_Solid (list_of t q) h = closed_Solid b'I' (codes "ReadOnlyList<") (type_text t ++ mark q) refl
text_Solid (set_of t q) h = closed_Solid b'I' (codes "ReadOnlySet<") (type_text t ++ mark q) refl
text_Solid (dictionary_of k t q) h =
    closed_Solid b'I' (codes "ReadOnlyDictionary<") (k ++ (codes ", " ++ (type_text t ++ mark q)))
      refl

pub Solid-trim : (s : Str) → Solid s → trim s ≡ s
Solid-trim s w = trim_solid s w.front w.end w.begins w.ends w.end_ink

split_nullable_of_some :
    (s r : Str) → strip_suffix (codes "?") s ≡ some r → split_nullable s ≡ (trim r, true)
unfolding split_nullable
split_nullable_of_some s r h = rw (h, split_nullable) refl

split_nullable_of_none :
    (s : Str) → strip_suffix (codes "?") s ≡ none → split_nullable s ≡ (s, false)
unfolding split_nullable
split_nullable_of_none s h = rw (h, split_nullable) refl

pub Stops-append :
    (s : Str) (c : ℕ) → Stops is_space s → is_space c ≡ false → Stops is_space (s ++ c ∷ [])
Stops-append [] c h k = k
Stops-append (d ∷ s) c h k = h

pub split_nullable-mark :
    (s : Str) (q : Bool) → Solid s → split_nullable (trim (s ++ mark q)) ≡ (s, q)
unfolding is_space
split_nullable-mark s true w =
    ap split_nullable
      (trim_solid (s ++ codes "?") s b'?' (Stops-append s b'?' w.begins refl) refl refl)
    ∙ split_nullable_of_some (s ++ codes "?") s (strip_suffix-append s b'?')
    ∙ ap (λ t. (t, true)) (Solid-trim s w)
split_nullable-mark s false w =
    ap split_nullable (ap trim (append-nil s) ∙ Solid-trim s w)
    ∙ split_nullable_of_none s
        (ap (strip_suffix (codes "?")) w.ends ∙ strip_suffix_ne w.front b'?' w.end w.end_plain)
