-- ===== src/ApiTypes/Tests.antt =====
-- Small sources for the generator of the API types.
use foundry_capital_markets.Prelude.{
  ◌≡◌, refl, ◌≢◌, true, false, Option, none, some, List, [], ◌∷◌, ◌++◌, map, if◌then◌else◌, arith,
  any, all, keep, Str, codes, ◌===◌, strip_prefix, starts_with, includes, is_space, is_word,
  trim_start, trim_end, trim, split_from, split, newline, span, cut_at, set_key,
}
use foundry_capital_markets.ApiTypes.Scan.{
  scan_all, spaces, spaces1, word1, is_type_char, lazy_type, before,
}
use foundry_capital_markets.ApiTypes.Parse.{
  member_name, is_name, members_of, match_enum, set_all, parse_enums, stored_tail, computed_tail,
  stored, match_stored, match_computed, add_computed, properties_of, match_record, parse_records,
}
use foundry_capital_markets.ApiTypes.Parse.Enums.{SourceEnum, source_text, IsEnum}
use foundry_capital_markets.ApiTypes.Parse.RoundTrip.{entry, parse_enums-source_text}
use foundry_capital_markets.ApiTypes.Types.{Js, primitive, map_type}
use foundry_capital_markets.ApiTypes.Types.Structure.{
  CSharpType, named, list_of, dictionary_of, mark, type_text, type_in_ts, IsWritten, IsOwn,
}
use foundry_capital_markets.ApiTypes.Types.Mapping.{map_type-type_text}
use foundry_capital_markets.ApiTypes.Emit.{generate}
use foundry_capital_markets.ApiTypes.Emit.Complete.{Reports, generate-Reports}
use foundry_capital_markets.ApiTypes.Run.{checks, main}
use foundry_capital_markets.ApiTypes.Run.Sync.{main_check-main}

abbrev lane_source : Str
lane_source = codes "public enum Lane { Research, Trading = 2, }"

lane_read : parse_enums lane_source ≡ (codes "Lane", codes "Research" ∷ codes "Trading" ∷ []) ∷ []
unfolding parse_enums scan_all match_enum set_all set_key strip_prefix word1 spaces cut_at span
    is_word is_space members_of split split_from member_name is_name keep all trim trim_start
    trim_end
lane_read = refl

abbrev quote_source : Str
quote_source =
    codes "public sealed record Quote {public required string Venue { get; } public int? Rank => 1;"
    ++ newline ∷ codes "}"

quote_read :
    parse_records quote_source
    ≡ (
      codes "Quote",
      record { name = codes "Venue"; required = true; csharp_type = codes "string" }
          ∷ record { name = codes "Rank"; required = true; csharp_type = codes "int?" }
          ∷ [],
    )
      ∷ []
unfolding parse_records scan_all match_record set_all set_key strip_prefix word1 spaces before span
    is_word is_space properties_of match_stored stored stored_tail lazy_type is_type_char spaces1
    match_computed computed_tail add_computed any ◌===◌ trim trim_start trim_end
quote_read = refl

abbrev lane : SourceEnum
lane = record {
  name = codes "Lane";
  gap = codes " ";
  members =
      record { lead = codes " "; name = codes "Research"; trail = []; value = none }
      ∷ record {
        lead = codes " ";
        name = codes "Trading";
        trail = codes " ";
        value = some (codes " 2");
      }
      ∷ [];
  after = codes " // the end";
}

lane-IsEnum : IsEnum lane
unfolding is_word is_space includes starts_with
lane-IsEnum = record {
  name_word = (refl, (refl, (refl, (refl, tt))));
  named = (λ z. ground (arith, z));
  gap_blank = (refl, tt);
  members_real = (
    record {
      lead_blank = (refl, tt);
      name_word = (refl, (refl, (refl, (refl, (refl, (refl, (refl, (refl, tt))))))));
      named = (λ z. ground (arith, z));
      trail_blank = tt;
      value_plain = tt;
    },
    (
      record {
        lead_blank = (refl, tt);
        name_word = (refl, (refl, (refl, (refl, (refl, (refl, (refl, tt)))))));
        named = (λ z. ground (arith, z));
        trail_blank = (refl, tt);
        value_plain = ground arith;
      },
      tt,
    ),
  );
  after_quiet = refl;
}

front_quiet : includes (codes "namespace Fcmr; ") (codes "public enum ") ≡ false
unfolding includes starts_with
front_quiet = refl

parse_enums-source_text_example :
    parse_enums (codes "namespace Fcmr; " ++ source_text (lane ∷ [])) ≡ map entry (lane ∷ [])
parse_enums-source_text_example =
    parse_enums-source_text (codes "namespace Fcmr; ") (lane ∷ []) front_quiet (lane-IsEnum, tt)
      (tt, tt)

abbrev scores : CSharpType
scores = dictionary_of (codes "Tier") (list_of (named (codes "double")) true) false

-- One of the names that objects inherit.
abbrev objects : Str → Option Str
objects n =
    if n === codes "constructor" then some (codes "function Object() { [native code] }") else none

scores_IsWritten : IsWritten scores
unfolding is_word
scores_IsWritten = (
  ((refl, (refl, (refl, (refl, tt)))), (λ z. ground (arith, z))),
  ((refl, (refl, (refl, (refl, (refl, (refl, tt)))))), (λ z. ground (arith, z))),
)

scores_IsOwn : IsOwn objects scores
unfolding ◌===◌
scores_IsOwn = (refl, refl)

-- A property whose type has such a name gets its text.
inherited_in_ts : (map_type objects (codes "constructor")).ts ≢ codes "constructor"
unfolding map_type ◌===◌
inherited_in_ts e = cc

map_type-type_text_example :
    map_type objects (type_text scores ++ mark true)
    ≡ record { ts = type_in_ts scores; nullable = true }
map_type-type_text_example = map_type-type_text objects scores true scores_IsWritten scores_IsOwn

scores_in_ts : type_in_ts scores ≡ codes "Partial<Record<Tier, number[]>>"
unfolding primitive ◌===◌
scores_in_ts = refl

abbrev same : Js
same = record { to_lower = λ s. s; inherited = objects }

generate-Reports_example : Reports same lane_source (generate same lane_source)
generate-Reports_example = generate-Reports same lane_source

abbrev source_files : List (List (Str × Str))
source_files = ((codes "Lane.cs", lane_source) ∷ []) ∷ []

checked : checks (codes "--check" ∷ []) ≡ true
unfolding any ◌===◌
checked = refl

unchecked : checks [] ≡ false
unfolding any
unchecked = refl

main_check-main_example :
    let ended = main same source_files [] none in
    ((ended.exit_code ≡ 0)
      → (main same source_files (codes "--check" ∷ []) ended.file).exit_code ≡ 0)
    × ((ended.exit_code ≢ 0) → ended.file ≡ none)
main_check-main_example =
    main_check-main same source_files [] (codes "--check" ∷ []) none unchecked checked
