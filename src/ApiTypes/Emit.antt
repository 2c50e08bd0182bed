-- ===== src/ApiTypes/Emit.antt =====
-- `generate` of scripts/generate-api-types.mjs: the lines of the generated file, or the types that are
-- missing.
pub mod Complete
use foundry_capital_markets.Prelude.{
  true, false, not, ◌||◌, none, some, List, [], ◌∷◌, ◌++◌, map, if◌then◌else◌, is_empty, keep, Str,
  codes, join, cat, newline, at_key,
}
use foundry_capital_markets.ApiTypes.Parse.{strip_comments, parse_enums, Property, parse_records}
use foundry_capital_markets.ApiTypes.Types.{Js, map_type, camel}

-- `EXPORTED_RECORDS`.
abbrev pub exported_records : List Str
exported_records = map codes (
    "RoutingDecision" ∷ "TierCandidate" ∷ "PolicyExclusion" ∷ "PolicySet" ∷ "PolicySetFieldChange"
    ∷ "ApprovalResponse" ∷ "EvidencePacket" ∷ "EvidenceSource" ∷ "ProposedAction"
    ∷ "RoutingDecisionSummary" ∷ "ApprovalRefusal" ∷ "RouteProposal" ∷ "VenueEvaluation"
    ∷ "VenueQuote" ∷ "CostBreakdown" ∷ "SimulatedExecution" ∷ "PolicyBreach" ∷ [])

-- `EXPORTED_ENUMS`.
abbrev pub exported_enums : List Str
exported_enums = map codes (
    "ModelTier" ∷ "RoutingOutcome" ∷ "ModelVendor" ∷ "ServingMode" ∷ "DataClassification"
    ∷ "PolicyExclusionKind" ∷ "ApprovalState" ∷ "ApprovalRefusalKind" ∷ "Lane" ∷ "OrderSide"
    ∷ "VenueType" ∷ "PolicyBoundary" ∷ "ExecutionRefusalReason" ∷ [])

-- The last parts of `sourceDirs`.
abbrev pub source_dirs : List Str
source_dirs = map codes (
    "Fcmr.Router.Decisions" ∷ "Fcmr.Approvals.Domain" ∷ "Fcmr.OrderRouting.Domain" ∷ "Contracts"
    ∷ [])

unfoldable pub header_lines : List Str
header_lines =
    codes "// GENERATED FILE -- DO NOT EDIT."
    ∷ codes "//"
    ∷ (map (λ dir. cat (codes "// Source: src/" ∷ dir ∷ codes "/*.cs" ∷ [])) source_dirs
        ++ (codes "// Regenerate: node scripts/generate-api-types.mjs"
            ∷ codes
                "// CI asserts this file is in sync via: node scripts/generate-api-types.mjs --check"
            ∷ []
            ∷ []))

unfoldable pub enum_lines : Str → List Str → List Str
unfolding join
enum_lines name members =
    cat (codes "export type " ∷ name ∷ codes " =" ∷ [])
    ∷ (join (newline ∷ []) (map (λ v. cat (codes "  | '" ∷ v ∷ codes "'" ∷ [])) members)
        ++ codes ";")
    ∷ []
    ∷ cat (codes "export const " ∷ name ∷ codes "Values: readonly " ∷ name ∷ codes "[] = [" ∷ [])
    ∷ join (newline ∷ []) (map (λ v. cat (codes "  '" ∷ v ∷ codes "'," ∷ [])) members)
    ∷ codes "] as const;"
    ∷ []
    ∷ []

-- The field of a property: optional where it is nullable or not required.
unfoldable pub field_line : Js → Property → Str
unfolding map_type camel
field_line js p =
    let m = map_type js.inherited p.csharp_type in
    cat (
      codes "  "
      ∷ camel js.to_lower p.name
      ∷ (if m.nullable || not p.required then codes "?" else [])
      ∷ codes ": "
      ∷ m.ts
      ∷ (if m.nullable then codes " | null" else [])
      ∷ codes ";"
      ∷ [])

unfoldable pub record_lines : Js → Str → List Property → List Str
unfolding field_line
record_lines js name props =
    cat (codes "export interface " ∷ name ∷ codes " {" ∷ [])
    ∷ (map (field_line js) props ++ (codes "}" ∷ [] ∷ []))

-- A list or an error that names what is missing.
pub data Generated : Type 0 where
  generated : Str → Generated
  types_missing : List Str → Generated

-- The names that a map lacks.
unfoldable pub lacking : {V : Type 0} → List (Str × V) → List Str → List Str
unfolding keep at_key
lacking m names = keep (λ n. elim (at_key n m) [ none ↦ true | some v ↦ false ]) names

-- The blocks of the names that a map has.
unfoldable pub blocks : {V : Type 0} → (Str → V → List Str) → List (Str × V) → List Str → List Str
unfolding at_key
blocks block m [] = []
blocks block m (n ∷ ns) =
    (elim (at_key n m) [ none ↦ [] | some v ↦ block n v ]) ++ blocks block m ns

unfoldable pub all_lines : Js → List (Str × List Str) → List (Str × List Property) → List Str
unfolding header_lines enum_lines record_lines blocks
all_lines js enums records =
    header_lines
    ++ (blocks enum_lines enums exported_enums ++ blocks (record_lines js) records exported_records)

-- `generate`, of the joined sources.
unfoldable pub generate : Js → Str → Generated
unfolding strip_comments parse_enums parse_records lacking all_lines join
generate js sources =
    let src = strip_comments sources in
    let enums = parse_enums src in
    let records = parse_records src in
    let gone = lacking enums exported_enums ++ lacking records exported_records in
    if is_empty gone
    then generated (join (newline ∷ []) (all_lines js enums records))
    else types_missing gone
