-- ===== src/ApiTypes/Parse/Enums.antt =====
-- How C# sources declare enums, apart from the code that reads them, and the names of the members.
use foundry_capital_markets.Prelude.{
  ◌≡◌, refl, sym, ap, ◌∙◌, ◌≢◌, false, Option, none, some, List, [], ◌∷◌, ◌++◌, map, append-nil,
  append_assoc, All, All-append, Str, codes, includes, is_space, is_word, trim_end, trim, join,
  Lacks,
}
use foundry_capital_markets.ApiTypes.Blanks.{
  Chars, cut_at-append, cut_at_of_Lacks, word-space, Chars-ne, Stops-of_word, trim_start-append,
  trim_end-append, trim_end_keeps,
}
use foundry_capital_markets.ApiTypes.Parse.{member_name}

-- A member as it is written: blanks before and behind its name, and a value or none.
pub record SourceMember : Type 0 where
  pub lead : Str
  pub name : Str
  pub trail : Str
  pub value : Option Str

-- An enum as it is written: blanks before the brace, and the text behind the declaration.
pub record SourceEnum : Type 0 where
  pub name : Str
  pub gap : Str
  pub members : List SourceMember
  pub after : Str

abbrev pub value_text : Option Str → Str
value_text none = []
value_text (some v) = b'=' ∷ v

abbrev pub member_text : SourceMember → Str
member_text m = m.lead ++ (m.name ++ (m.trail ++ value_text m.value))

abbrev pub body_text : List SourceMember → Str
body_text ms = join (b',' ∷ []) (map member_text ms)

abbrev pub enum_text : SourceEnum → Str
enum_text e =
    codes "public enum " ++ (e.name ++ (e.gap ++ (codes "{" ++ (body_text e.members ++ codes "}"))))

-- Enums among other text.
abbrev pub source_text : List SourceEnum → Str
source_text [] = []
source_text (e ∷ es) = enum_text e ++ (e.after ++ source_text es)

abbrev pub ValueIsPlain : Option Str → Type 0
ValueIsPlain none = Unit
ValueIsPlain (some v) = Lacks b',' v × Lacks b'}' v

pub record IsMember (m : SourceMember) : Type 0 where
  pub lead_blank : Chars is_space m.lead
  pub name_word : Chars is_word m.name
  pub named : m.name ≢ []
  pub trail_blank : Chars is_space m.trail
  pub value_plain : ValueIsPlain m.value

pub record IsEnum (e : SourceEnum) : Type 0 where
  pub name_word : Chars is_word e.name
  pub named : e.name ≢ []
  pub gap_blank : Chars is_space e.gap
  pub members_real : All IsMember e.members
  pub after_quiet : includes e.after (codes "public enum ") ≡ false

-- A name behind its blanks, up to where it ends.
trim-lead :
    (lead w s : Str)
    → Chars is_space lead
    → Chars is_word w
    → w ≢ []
    → trim (lead ++ (w ++ s)) ≡ trim_end (w ++ s)
unfolding trim
trim-lead lead [] s h k ne = absurd (ne refl)
trim-lead lead (c ∷ w) s h (x, k) ne =
    ap trim_end (trim_start-append lead (c ∷ w ++ s) h (word-space c x))

trim-word : (w : Str) → Chars is_word w → trim w ≡ w
unfolding trim
trim-word w h =
    ap trim_end (trim_start-append [] w tt (Stops-of_word w h))
    ∙ ap trim_end (sym (append-nil w))
    ∙ trim_end-append w [] h tt

trim-word_blanks : (w b : Str) → Chars is_word w → w ≢ [] → Chars is_space b → trim (w ++ b) ≡ w
trim-word_blanks w b h ne k = trim-lead [] w b tt h ne ∙ trim_end-append w b h k

member_name_of_none : (v w : Str) → trim v ≡ w → Chars is_word w → member_name v ≡ w
unfolding member_name is_word is_space
member_name_of_none v w e h =
    rw (e, member_name, cut_at_of_Lacks b'=' w (Chars-ne is_word b'=' w refl h), e, trim-word w h)
      refl

member_name_of_some :
    (v w b z : Str)
    → trim v ≡ w ++ (b ++ b'=' ∷ z)
    → Chars is_word w
    → w ≢ []
    → Chars is_space b
    → member_name v ≡ w
unfolding member_name is_word is_space
member_name_of_some v w b z e h ne k =
    rw
      (
        e,
        member_name,
        sym (append_assoc w b (b'=' ∷ z)),
        cut_at-append b'=' (w ++ b) z (
            All-append (λ d. d ≢ b'=') w b (Chars-ne is_word b'=' w refl h)
              (Chars-ne is_space b'=' b refl k)),
        trim-word_blanks w b h ne k,
      )
      refl

member_name-value :
    (lead w b : Str) (v : Option Str)
    → Chars is_space lead
    → Chars is_word w
    → w ≢ []
    → Chars is_space b
    → member_name (lead ++ (w ++ (b ++ value_text v))) ≡ w
unfolding is_space
member_name-value lead w b none l h ne k =
    member_name_of_none _ w (trim-lead lead w _ l h ne ∙ rw append-nil (trim_end-append w b h k)) h
member_name-value lead w b (some v) l h ne k =
    let (z, e) = trim_end_keeps (w ++ b) v b'=' refl in
    member_name_of_some _ w b z
      (trim-lead lead w _ l h ne
        ∙ ap trim_end (sym (append_assoc w b (b'=' ∷ v)))
        ∙ e
        ∙ append_assoc w b (b'=' ∷ z))
      h ne k

pub member_name-member_text : (m : SourceMember) → IsMember m → member_name (member_text m) ≡ m.name
member_name-member_text m i =
    member_name-value m.lead m.name m.trail m.value i.lead_blank i.name_word i.named i.trail_blank
