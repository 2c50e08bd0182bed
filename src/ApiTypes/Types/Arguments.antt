-- ===== src/ApiTypes/Types/Arguments.antt =====
-- The arguments that are read out of the texts of collections.
use foundry_capital_markets.Prelude.{
  ℕ, ◌-◌, ◌≡◌, refl, ap, ◌∙◌, ◌≢◌, Bool, true, false, none, some, [], ◌∷◌, ◌++◌, arith, ◌==◌,
  if◌then◌else◌, length, drop, is_empty, any, Str, codes, strip_prefix, is_space, is_word, Lacks,
}
use foundry_capital_markets.ApiTypes.Blanks.{
  Chars, Stops, cut_at-append, Chars-ne, trim_start-append,
}
use foundry_capital_markets.ApiTypes.Scan.{◌>>=◌}
use foundry_capital_markets.ApiTypes.Types.{
  strip_suffix, is_break, is_line, between, line_group, list_argument, value_argument,
  dictionary_arguments,
}
use foundry_capital_markets.ApiTypes.Types.Ends.{strip_suffix-append, strip_prefix_of_Lacks}
use foundry_capital_markets.ApiTypes.Types.Structure.{mark, IsWord}
use foundry_capital_markets.ApiTypes.Types.Texts.{Unbroken, word_Unbroken, mark_join, Solid}

any_of_Unbroken : (s : Str) → Unbroken s → any is_break s ≡ false
unfolding any
any_of_Unbroken [] h = refl
any_of_Unbroken (c ∷ s) (x, h) = ground (arith, x, any_of_Unbroken s h)

is_line_of_Unbroken : (s : Str) → s ≢ [] → Unbroken s → is_line s ≡ true
unfolding is_line
is_line_of_Unbroken [] n h = absurd (n refl)
is_line_of_Unbroken (c ∷ s) n h = rw (any_of_Unbroken (c ∷ s) h) refl

line_group_of_line : (s : Str) → is_line s ≡ true → line_group s ≡ some s
unfolding line_group
line_group_of_line s h = rw h refl

strip_prefix-append : (p s : Str) → strip_prefix p (p ++ s) ≡ some s
unfolding strip_prefix
strip_prefix-append [] s = refl
strip_prefix-append (c ∷ p) s = ground (arith, strip_prefix-append p s)

-- An argument between its prefix and `>`.
pub between-append : (p s : Str) → between p (p ++ (s ++ codes ">")) ≡ some s
unfolding between
between-append p s =
    ap (λ o. o >>= strip_suffix (codes ">")) (strip_prefix-append p (s ++ codes ">"))
    ∙ strip_suffix-append s b'>'

pub between_of_Lacks :
    (c : ℕ) (p s : Str) → any (λ d. d == c) p ≡ true → Lacks c s → between p s ≡ none
unfolding between
between_of_Lacks c p s h k =
    ap (λ o. o >>= strip_suffix (codes ">")) (strip_prefix_of_Lacks c p s h k)

nothing_before : (s front : Str) (c : ℕ) → s ≡ front ++ c ∷ [] → s ≢ []
nothing_before s [] c e z = ground (arith, e, z)
nothing_before s (d ∷ front) c e z = ground (arith, e, z)

pub marked_line : (s : Str) (q : Bool) → Solid s → Unbroken s → is_line (s ++ mark q) ≡ true
marked_line [] q w h = absurd (nothing_before [] w.front w.end w.ends refl)
marked_line (c ∷ s) q w h =
    is_line_of_Unbroken (c ∷ (s ++ mark q)) (λ z. ground (arith, z)) (mark_join (c ∷ s) q h)

pub marked_Stops : (s : Str) (q : Bool) → Solid s → Stops is_space (s ++ mark q)
marked_Stops [] q w = absurd (nothing_before [] w.front w.end w.ends refl)
marked_Stops (c ∷ s) q w = w.begins

pub list_argument_of_list :
    (s : Str)
    → is_line s ≡ true
    → list_argument (codes "IReadOnlyList<" ++ (s ++ codes ">")) ≡ some s
unfolding list_argument
list_argument_of_list s h =
    rw (between-append (codes "IReadOnlyList<") s, line_group_of_line s h, list_argument) refl

pub list_argument_of_set :
    (s : Str)
    → is_line s ≡ true
    → list_argument (codes "IReadOnlySet<" ++ (s ++ codes ">")) ≡ some s
unfolding list_argument between strip_prefix
list_argument_of_set s h =
    ap (λ o. o >>= strip_suffix (codes ">") >>= line_group)
      (strip_prefix-append (codes "IReadOnlySet<") (s ++ codes ">"))
    ∙ ap (λ o. o >>= line_group) (strip_suffix-append s b'>')
    ∙ line_group_of_line s h

pub list_argument_of_dictionary :
    (s : Str) → list_argument (codes "IReadOnlyDictionary<" ++ s) ≡ none
unfolding list_argument between strip_prefix
list_argument_of_dictionary s = refl

pub list_argument_of_word : (n : Str) → Chars is_word n → list_argument n ≡ none
unfolding list_argument is_word any
list_argument_of_word n h =
    let lacks = Chars-ne is_word b'<' n refl h in
    rw
      (
        between_of_Lacks b'<' (codes "IReadOnlyList<") n refl lacks,
        between_of_Lacks b'<' (codes "IReadOnlySet<") n refl lacks,
        list_argument,
      )
      refl

value_argument_of_blank :
    (s : Str) → s ≢ [] → Stops is_space s → value_argument (codes " " ++ s) ≡ s
unfolding value_argument is_space
value_argument_of_blank [] n h = absurd (n refl)
value_argument_of_blank (c ∷ s) n h =
    ap
      (λ t.
        if is_empty t then drop (length (codes " " ++ (c ∷ s)) - 1) (codes " " ++ (c ∷ s)) else t)
      (trim_start-append (codes " ") (c ∷ s) (refl, tt) h)

line_ne : (s : Str) → is_line s ≡ true → s ≢ []
unfolding is_line
line_ne [] h z = ground (arith, h)
line_ne (c ∷ s) h z = ground (arith, z)

pub dictionary_arguments_of_text :
    (k v : Str)
    → IsWord k
    → is_line v ≡ true
    → Stops is_space v
    → dictionary_arguments (k ++ (codes ", " ++ v)) ≡ some (k, v)
unfolding dictionary_arguments is_word
dictionary_arguments_of_text [] v (h, n) l b = absurd (n refl)
dictionary_arguments_of_text (c ∷ k) v ((x, h), n) l b =
    rw
      (
        cut_at-append b',' k (codes " " ++ v) (Chars-ne is_word b',' k refl h),
        value_argument_of_blank v (line_ne v l) b,
        is_line_of_Unbroken (c ∷ k) n (word_Unbroken (c ∷ k) (x, h)),
        l,
      )
      refl
