-- ===== src/Webui/Packet.antt =====
-- The evidence packet, src/webui/src/components/EvidencePacketView.tsx: the sections that it shows,
-- with their texts.
--
-- A dictionary is its entries, as Object.entries gives them. `String` of a number, `toFixed` and
-- `Intl.NumberFormat` are parameters. Tags and class names are left out.
pub mod Complete
mod Tests
use foundry_capital_markets.Prelude.{
  ℕ, Option, none, some, List, [], ◌∷◌, ◌++◌, map, if◌then◌else◌, length, is_empty, any, Str, codes,
}
use foundry_capital_markets.Diagram.Svg.{decimal}

pub record EvidenceSource (N : Type 0) : Type 0 where
  pub document_id : Str
  pub chunk_id : Str
  pub score : N
  pub excerpt : Str

pub record ProposedAction : Type 0 where
  pub kind : Str
  pub summary : Str
  pub fields : Option (List (Str × Str))

pub record RoutingDecisionSummary (N : Type 0) : Type 0 where
  pub outcome : Str
  pub selected_tier : Option Str
  pub selected_deployment : Option Str
  pub selected_vendor : Option Str
  pub rationale : Str
  pub complexity_score : N
  pub cost_ceiling_usd : N
  pub policy_set_id : Option Str
  pub policy_set_version : Option N

pub record EvidencePacket (N : Type 0) : Type 0 where
  pub correlation_id : Str
  pub lane : Str
  pub proposed_action : ProposedAction
  pub routing_decision : RoutingDecisionSummary N
  pub inputs : Option (List (Str × Str))
  pub retrieved_sources : Option (List (EvidenceSource N))
  pub unattributable_claims : Option (List Str)

-- A section: its heading, a line below it, its pairs of term and text, and its items.
pub record Section : Type 0 where
  pub heading : Str
  pub summary : Option Str
  pub pairs : List (Str × Str)
  pub items : List (List Str)

-- `x ?? []`.
abbrev pub or_empty : {A : Type 0} → Option (List A) → List A
or_empty none = []
or_empty (some xs) = xs

unfoldable pub counted : Str → ℕ → Str
unfolding decimal
counted heading n = heading ++ (codes " (" ++ (decimal n ++ codes ")"))

module _ {N : Type 0} (shown fixed_two usd : N → Str) where
  unfoldable pub action_section : ProposedAction → Section
  action_section a = record {
    heading = codes "Proposed action";
    summary = some a.summary;
    pairs = (codes "Kind", a.kind) ∷ or_empty a.fields;
    items = [];
  }

  unfoldable pub no_model : Option Str → Str
  no_model none = codes "None — no model was selected"
  no_model (some t) = t

  -- An id that is empty is none, as one that is null.
  unfoldable pub policy_set_text : Option Str → Option N → Str
  policy_set_text none version = codes "None recorded"
  policy_set_text (some id) version =
      if is_empty id
      then codes "None recorded"
      else id ++ (codes " v" ++ elim version [ some v ↦ shown v | none ↦ codes "?" ])

  unfoldable pub decision_section : RoutingDecisionSummary N → Section
  unfolding no_model policy_set_text
  decision_section d = record {
    heading = codes "Routing decision";
    summary = some d.rationale;
    pairs =
        (codes "Outcome", d.outcome)
        ∷ (codes "Tier", no_model d.selected_tier)
        ∷ (codes "Vendor", no_model d.selected_vendor)
        ∷ (codes "Complexity score", shown d.complexity_score)
        ∷ (codes "Cost ceiling", usd d.cost_ceiling_usd)
        ∷ (codes "Policy set", policy_set_text d.policy_set_id d.policy_set_version)
        ∷ [];
    items = [];
  }

  -- The inputs have a section only if there are any.
  unfoldable pub input_sections : List (Str × Str) → List Section
  input_sections [] = []
  input_sections (i ∷ is) =
      record { heading = codes "Inputs"; summary = none; pairs = i ∷ is; items = [] } ∷ []

  unfoldable pub source_item : EvidenceSource N → List Str
  source_item s =
      (s.document_id ++ (codes " · " ++ s.chunk_id))
      ∷ (codes "score " ++ fixed_two s.score)
      ∷ s.excerpt
      ∷ []

  unfoldable pub source_section : List (EvidenceSource N) → Section
  unfolding counted source_item
  source_section sources = record {
    heading = counted (codes "Retrieved sources") (length sources);
    summary =
        if is_empty sources
        then some (
            codes
              "No sources were retrieved for this proposal. Nothing here rests on retrieved evidence.")
        else none;
    pairs = [];
    items = map source_item sources;
  }

  -- Always present, including when empty.
  unfoldable pub claim_section : List Str → Section
  unfolding counted
  claim_section claims = record {
    heading = counted (codes "Unattributable claims") (length claims);
    summary =
        if is_empty claims
        then some (
            codes
              "No unattributable claims. Every claim in this packet traces to retrieved evidence.")
        else none;
    pairs = [];
    items = map (λ (c : Str). c ∷ []) claims;
  }

  unfoldable pub packet_view : EvidencePacket N → List Section
  unfolding action_section decision_section input_sections source_section claim_section
  packet_view p =
      action_section p.proposed_action
      ∷ decision_section p.routing_decision
      ∷ (input_sections (or_empty p.inputs)
          ++ source_section (or_empty p.retrieved_sources)
            ∷ claim_section (or_empty p.unattributable_claims)
            ∷ [])
