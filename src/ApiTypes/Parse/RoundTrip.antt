-- ===== src/ApiTypes/Parse/RoundTrip.antt =====
-- Reading the enums back from any source text that declares them.
use mathlib.Core.Path.{subst}
use foundry_capital_markets.Prelude.{
  ℕ, ◌≡◌, refl, sym, ap, ◌∙◌, ◌≢◌, Bool, true, false, ◌||◌, Option, none, some, List, [], ◌∷◌, ◌++◌,
  map, append-nil, append_assoc, arith, all, keep, All, All-append, Str, codes, strip_prefix,
  includes, is_space, is_word, trim_start, trim_end, trim, split_from, split, join, Lacks,
  split-join, cut_at, set_key_new, Distinct,
}
use foundry_capital_markets.ApiTypes.Blanks.{Chars, cut_at-append, Chars-ne}
use foundry_capital_markets.ApiTypes.Scan.{scan_all}
use foundry_capital_markets.ApiTypes.Scan.Steps.{
  word1-append, spaces-append, Stops-of_gap, scan_all-none, scan_all-found, Heads,
  strip_prefix_quiet,
}
use foundry_capital_markets.ApiTypes.Parse.{
  member_name, is_name, members_of, match_enum, set_all, parse_enums,
}
use foundry_capital_markets.ApiTypes.Parse.Enums.{
  SourceMember, SourceEnum, value_text, member_text, body_text, source_text, ValueIsPlain, IsMember,
  IsEnum, member_name-member_text,
}

all_of_Chars : (p : ℕ → Bool) (s : Str) → Chars p s → all p s ≡ true
unfolding all
all_of_Chars p [] h = refl
all_of_Chars p (c ∷ s) (x, h) = rw x (all_of_Chars p s h)

is_name_of_word : (w : Str) → Chars is_word w → w ≢ [] → is_name w ≡ true
unfolding is_name
is_name_of_word [] h ne = absurd (ne refl)
is_name_of_word (c ∷ w) h ne = all_of_Chars is_word (c ∷ w) h

member_text-Lacks :
    (c : ℕ)
    → is_space c ≡ false
    → is_word c ≡ false
    → b'=' ≢ c
    → (m : SourceMember) → IsMember m
    → Lacks c (value_text m.value)
    → Lacks c (member_text m)
member_text-Lacks c s w ne m i h =
    All-append (λ d. d ≢ c) m.lead _ (Chars-ne is_space c m.lead s i.lead_blank)
      (All-append (λ d. d ≢ c) m.name _ (Chars-ne is_word c m.name w i.name_word)
        (All-append (λ d. d ≢ c) m.trail _ (Chars-ne is_space c m.trail s i.trail_blank) h))

value_text-Lacks :
    (v : Option Str) → ValueIsPlain v → Lacks b',' (value_text v) × Lacks b'}' (value_text v)
value_text-Lacks none h = (tt, tt)
value_text-Lacks (some v) (x, y) = ((omega arith, x), (omega arith, y))

commas : (ms : List SourceMember) → All IsMember ms → All (Lacks b',') (map member_text ms)
unfolding is_space is_word
commas [] h = tt
commas (m ∷ ms) (i, h) = (
  member_text-Lacks b',' refl refl (omega arith) m i (value_text-Lacks m.value i.value_plain).0,
  commas ms h,
)

closed : (m : SourceMember) → IsMember m → Lacks b'}' (member_text m)
unfolding is_space is_word
closed m i =
    member_text-Lacks b'}' refl refl (omega arith) m i (value_text-Lacks m.value i.value_plain).1

body_text-Lacks : (ms : List SourceMember) → All IsMember ms → Lacks b'}' (body_text ms)
unfolding join
body_text-Lacks [] h = tt
body_text-Lacks (m ∷ []) (i, h) = closed m i
body_text-Lacks (m ∷ n ∷ ms) (i, h) =
    All-append (λ d. d ≢ b'}') (member_text m) (b',' ∷ body_text (n ∷ ms)) (closed m i)
      (omega arith, body_text-Lacks (n ∷ ms) h)

names_kept :
    (ms : List SourceMember)
    → All IsMember ms
    → keep is_name (map member_name (map member_text ms)) ≡ map (λ m. m.name) ms
unfolding keep
names_kept [] h = refl
names_kept (m ∷ ms) (i, h) =
    rw (member_name-member_text m i, is_name_of_word m.name i.name_word i.named, names_kept ms h)
      refl

pub members_of-body_text :
    (ms : List SourceMember) → All IsMember ms → members_of (body_text ms) ≡ map (λ m. m.name) ms
unfolding members_of join split split_from member_name is_name keep cut_at trim trim_end trim_start
members_of-body_text [] h = refl
members_of-body_text (m ∷ ms) h =
    ap (λ ps. keep is_name (map member_name ps))
      (split-join b',' (member_text m) (map member_text ms) (commas (m ∷ ms) h))
    ∙ names_kept (m ∷ ms) h

-- What an enum says.
abbrev pub entry : SourceEnum → Str × List Str
entry e = (e.name, map (λ m. m.name) e.members)

match_enum-text :
    (e : SourceEnum) (s : Str)
    → IsEnum e
    → match_enum
        (codes "public enum " ++ (e.name ++ (e.gap ++ (b'{' ∷ (body_text e.members ++ b'}' ∷ s)))))
      ≡ some (entry e, s)
unfolding match_enum is_space strip_prefix
match_enum-text e s i =
    rw
      (
        word1-append e.name (e.gap ++ (b'{' ∷ (body_text e.members ++ b'}' ∷ s))) i.name_word
            i.named (Stops-of_gap e.gap _ i.gap_blank),
        spaces-append e.gap (b'{' ∷ (body_text e.members ++ b'}' ∷ s)) i.gap_blank refl,
        cut_at-append b'}' (body_text e.members) s (body_text-Lacks e.members i.members_real),
        members_of-body_text e.members i.members_real,
      )
      refl

-- `enum_text` behind its first letter.
abbrev tail_text : SourceEnum → Str
tail_text e =
    codes "ublic enum " ++ (e.name ++ (e.gap ++ (codes "{" ++ (body_text e.members ++ codes "}"))))

match_enum-tail_text :
    (e : SourceEnum) (s : Str)
    → IsEnum e
    → match_enum (b'p' ∷ (tail_text e ++ s)) ≡ some (entry e, s)
match_enum-tail_text e s i = ap match_enum (simp (append_assoc)) ∙ match_enum-text e s i

or_false : (a b : Bool) → (a || b) ≡ false → (a ≡ false) × (b ≡ false)
or_false true b h = ground arith
or_false false b h = (refl, h)

Lacks-p : Lacks b'p' (codes "ublic enum ")
Lacks-p = ground arith

match_enum_of_none : (s : Str) → strip_prefix (codes "public enum ") s ≡ none → match_enum s ≡ none
unfolding match_enum
match_enum_of_none s h = rw h refl

-- No match begins in a text that does not hold `public enum `.
quiet :
    (u s : Str)
    → includes u (codes "public enum ") ≡ false
    → Heads b'p' s
    → scan_all match_enum 0 (u ++ s) ≡ scan_all match_enum 0 s
unfolding includes
quiet [] s h k = refl
quiet (c ∷ u) s h k =
    let (apart, more) = or_false _ _ h in
    scan_all-none match_enum c (u ++ s)
      (match_enum_of_none _ (strip_prefix_quiet b'p' (codes "ublic enum ") c u s Lacks-p k apart))
    ∙ quiet u s more k

source_text-Heads : (es : List SourceEnum) → Heads b'p' (source_text es)
source_text-Heads [] = tt
source_text-Heads (e ∷ es) = refl

scan_all-source_text :
    (es : List SourceEnum) → All IsEnum es → scan_all match_enum 0 (source_text es) ≡ map entry es
unfolding scan_all
scan_all-source_text [] h = refl
scan_all-source_text (e ∷ es) (i, h) =
    scan_all-found match_enum b'p' (tail_text e) (e.after ++ source_text es) (entry e)
      (match_enum-tail_text e _ i)
    ∙ ap (λ t. entry e ∷ t)
        (quiet e.after (source_text es) i.after_quiet (source_text-Heads es)
          ∙ scan_all-source_text es h)

module _ {V : Type 0} where
  abbrev names : List (Str × V) → List Str
  names = map (λ e. e.0)

  -- No name of the one list is a name of the other.
  abbrev Apart : List (Str × V) → List (Str × V) → Type 0
  Apart m = All (λ e. All (λ d. d.0 ≢ e.0) m)

  Apart-append :
      (m es : List (Str × V)) (n : Str) (v : V)
      → Apart m es
      → All (λ d. n ≢ d) (names es)
      → Apart (m ++ (n, v) ∷ []) es
  Apart-append m [] n v h k = tt
  Apart-append m (e ∷ es) n v (x, h) (y, k) =
      (All-append (λ d. d.0 ≢ e.0) m ((n, v) ∷ []) x (y, tt), Apart-append m es n v h k)

  set_all_new : (es m : List (Str × V)) → Distinct (names es) → Apart m es → set_all es m ≡ m ++ es
  unfolding set_all
  set_all_new [] m h k = sym (append-nil m)
  set_all_new ((n, v) ∷ es) m (x, h) (y, k) =
      ap (set_all es) (set_key_new n v m y)
      ∙ set_all_new es (m ++ (n, v) ∷ []) h (Apart-append m es n v k x)
      ∙ append_assoc m ((n, v) ∷ []) es

  Apart-nil : (es : List (Str × V)) → Apart [] es
  Apart-nil [] = tt
  Apart-nil (e ∷ es) = (tt, Apart-nil es)

abbrev pub enum_names : List SourceEnum → List Str
enum_names = map (λ e. e.name)

-- Whatever text stands before, between and behind the declarations, as long as it does not hold
-- `public enum `: if the enums have different names, `parse_enums` gives each name with the names of
-- its members, in their order, with the blanks and the values of the members left out.
pub parse_enums-source_text :
    (front : Str) (es : List SourceEnum)
    → includes front (codes "public enum ") ≡ false
    → All IsEnum es
    → Distinct (enum_names es)
    → parse_enums (front ++ source_text es) ≡ map entry es
unfolding parse_enums
parse_enums-source_text front es q h d =
    ap (λ m. set_all m [])
      (quiet front (source_text es) q (source_text-Heads es) ∙ scan_all-source_text es h)
    ∙ set_all_new (map entry es) [] (subst Distinct (entry_names es) d) (Apart-nil (map entry es))
  where
    entry_names : (xs : List SourceEnum) → enum_names xs ≡ names (map entry xs)
    entry_names [] = refl
    entry_names (e ∷ xs) = ap (λ t. e.name ∷ t) (entry_names xs)
