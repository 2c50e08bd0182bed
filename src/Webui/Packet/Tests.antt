-- ===== src/Webui/Packet/Tests.antt =====
-- A packet with one claim that could not be attributed.
use foundry_capital_markets.Prelude.{◌≡◌, refl, none, some, [], ◌∷◌, Str, codes}
use foundry_capital_markets.Webui.Packet.{EvidencePacket, policy_set_text, packet_view}
use foundry_capital_markets.Webui.Packet.Complete.{Shows, packet_view-Shows}

abbrev packet : EvidencePacket Str
packet = record {
  correlation_id = codes "c";
  lane = codes "Research";
  proposed_action = record { kind = codes "Publish"; summary = codes "Publish it."; fields = none };
  routing_decision = record {
    outcome = codes "Routed";
    selected_tier = some (codes "Economy");
    selected_deployment = none;
    selected_vendor = none;
    rationale = codes "Cheap enough.";
    complexity_score = codes "0.2";
    cost_ceiling_usd = codes "0.25";
    policy_set_id = some (codes "US");
    policy_set_version = none;
  };
  inputs = some ((codes "question", codes "Why?") ∷ []);
  retrieved_sources = none;
  unattributable_claims = some (codes "Everyone knows." ∷ []);
}

abbrev same : Str → Str
same s = s

version_unknown : policy_set_text same same same (some (codes "US")) none ≡ codes "US v?"
unfolding policy_set_text
version_unknown = refl

packet_view-Shows_example :
    let view = packet_view same same same packet in
    Shows view (codes "Publish it.")
    × Shows view (codes "Cheap enough.")
    × Unit {0}
    × (Shows view (codes "Why?") × Unit {0})
    × Unit {0}
    × (Shows view (codes "Everyone knows.") × Unit {0})
packet_view-Shows_example = packet_view-Shows same same same packet
