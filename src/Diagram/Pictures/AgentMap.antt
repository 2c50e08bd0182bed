-- ===== src/Diagram/Pictures/AgentMap.antt =====
-- `agentArchitecture`, of scripts/diagrams/diagrams.mjs: lane services and hosted agents.
pub mod Items
pub mod Layout
use foundry_capital_markets.Prelude.{not, none, some, List, [], ◌∷◌, any, In, codes}
use foundry_capital_markets.Prelude.Int.{ℤ, ◌+ℤ◌, ◌-ℤ◌}
use foundry_capital_markets.Diagram.Metrics.{grains}
use foundry_capital_markets.Diagram.Geometry.{px, top_side, bottom_side, route}
use foundry_capital_markets.Diagram.Scene.{Prefix}
use foundry_capital_markets.Diagram.Shapes.{Placed, box}
use foundry_capital_markets.Diagram.Arrows.{legend}
use foundry_capital_markets.Diagram.Pictures.{
  ◌>>=◌, ◌>>◌, Draw, pure, item, group_spec, no_options, minus_px, draw_box, draw_group, draw_arrow,
  draw_header, draw_legend, place_items, nth, legend_private, legend_human, legend_chokepoint,
  legend_absent,
}
use foundry_capital_markets.Diagram.Pictures.AgentMap.Items.{
  row_specs, chain_specs, det_specs, hitl_specs, fail_specs,
}
use foundry_capital_markets.Diagram.Pictures.AgentMap.Layout.{
  x0, w, top_y, cols4, row_h, b2y, chain_cols, chain_h, det_cols, det_h, hitl_cols, hitl_h,
  fail_cols, fail_h,
}

-- The arrows between the four boxes.
unfoldable pub row_arrows : Placed → Placed → Placed → Placed → Draw (Unit {0})
row_arrows custodian agent mcp data_planes = do
  draw_arrow custodian agent (record no_options {
    label = codes "thread +\ncorrelationId";
    label_width = px 150;
    label_dy = minus_px 60;
  })
  draw_arrow agent mcp (record no_options {
    label = codes "tool call";
    label_width = px 150;
    label_dy = minus_px 60;
  })
  draw_arrow mcp data_planes (record no_options {
    label = codes "reads data";
    label_width = px 150;
    label_dy = minus_px 60;
  })

-- The arrows of the chain, and across the boundary.
unfoldable pub chain_arrows : Placed → Placed → Placed → List Placed → Draw (Unit {0})
chain_arrows agent b2 b1 chain = do
  chain_0 ← nth chain 0
  chain_1 ← nth chain 1
  draw_arrow chain_0 chain_1 no_options
  chain_2 ← nth chain 2
  draw_arrow chain_1 chain_2 no_options
  draw_arrow agent b1 (record no_options {
    sides = some (bottom_side, top_side);
    label = codes "model invocation — crosses the boundary only via the router";
    label_width = px 620;
    label_at =
        some (record { x = x0 +ℤ w -ℤ px 420; y = b2.frame.top +ℤ b2.frame.height +ℤ px 30 });
  })
  draw_arrow b1 chain_0 (record no_options { sides = some (bottom_side, top_side) })

-- The row on reproducibility.
unfoldable pub draw_determinism : ℤ → Draw (Unit {0})
draw_determinism det_y = do
  _ ← draw_group (
      group_spec x0 det_y w (px 82 +ℤ det_h +ℤ px 30)
        "REPRODUCIBILITY — where the model stops and code starts"
        "The boundary that makes AC-6 (identical ranking for a fixed seed) an achievable claim.")
  det_boxes ← place_items det_cols (det_y +ℤ px 82) det_h 0 det_specs
  det_0 ← nth det_boxes 0
  det_1 ← nth det_boxes 1
  draw_arrow det_0 det_1 no_options
  det_2 ← nth det_boxes 2
  draw_arrow det_1 det_2 no_options

-- The row on the human in the loop.
unfoldable pub draw_human : ℤ → Draw (Unit {0})
draw_human hitl_y = do
  _ ← draw_group (
      group_spec x0 hitl_y w (px 82 +ℤ hitl_h +ℤ px 30)
        "PRINCIPLE I — HUMAN IN THE LOOP (NON-NEGOTIABLE)"
        "The agent may propose, rank, draft and evidence. It may not commit.")
  hitl_boxes ← place_items hitl_cols (hitl_y +ℤ px 82) hitl_h 0 hitl_specs
  hitl_0 ← nth hitl_boxes 0
  hitl_1 ← nth hitl_boxes 1
  draw_arrow hitl_0 hitl_1 no_options
  hitl_2 ← nth hitl_boxes 2
  draw_arrow hitl_1 hitl_2 no_options
  hitl_3 ← nth hitl_boxes 3
  draw_arrow hitl_2 hitl_3 no_options

-- The row of the failure modes.
unfoldable pub draw_failures : ℤ → Draw (Unit {0})
draw_failures fail_y = do
  _ ← draw_group (
      group_spec x0 fail_y w (px 82 +ℤ fail_h +ℤ px 30)
        "FAILURE MODES — each has a defined, demonstrable behaviour"
        "Every one of these is rehearsed. A failure with no defined behaviour is a failure discovered on stage.")
  _ ← place_items fail_cols (fail_y +ℤ px 82) fail_h 0 fail_specs
  pure tt

-- The legend, and the box beside it.
unfoldable pub agent_key : ℤ → Draw (Unit {0})
agent_key fail_y = do
  let legend_y = fail_y +ℤ px 82 +ℤ fail_h +ℤ px 30 +ℤ px 60
  draw_legend x0 legend_y (px 1240) (
      legend_chokepoint
      ∷ codes "Model reasoning — the non-deterministic part, deliberately fenced."
      ∷ legend_private
      ∷ legend_human
      ∷ codes "Network-enforced boundary, or a refusal path."
      ∷ legend_absent
      ∷ [])
  _ ←
      draw_box
        (item "Why the router is not an agent"
          "The exchange is deterministic code: policy evaluation, complexity scoring, tier selection. It is the component a compliance audience will interrogate line by line\nand the assembly under a coverage gate. Making it an agent would mean explaining why the thing that enforces governance is itself non-deterministic.\nIt is a service, permanently. The same separation appears twice more: evaluate_best_execution_policy decides and the agent explains; the model scores alerts\nand the service ranks them. In each case the model reasons and code decides what is permitted.")
        (x0 +ℤ px 1240 +ℤ px 60) legend_y (w -ℤ px 1240 -ℤ px 60) none
  pure tt

unfoldable pub agent_architecture : Draw (Unit {0})
agent_architecture = do
  draw_header x0 (px 60) w "03 · Lane services as custodians of Foundry hosted agents"
      "Conclusion: the agent reasons but the service is accountable — two network-enforced boundaries stop the agent reaching a model or a tool reaching a model, and no consequential action leaves the system without a human."
  row_boxes ← place_items cols4 top_y row_h 0 row_specs
  custodian ← nth row_boxes 0
  agent ← nth row_boxes 1
  mcp ← nth row_boxes 2
  data_planes ← nth row_boxes 3
  row_arrows custodian agent mcp data_planes
  b2 ←
      draw_box
        (item "BOUNDARY 2 — network enforced:  TOOLS REACH DATA, NEVER MODELS"
          "No MCP tool wraps a model invocation. If a tool needs model output it calls the router like any other caller, and that call is routed, priced and recorded.\nThis is what keeps the cost scoreboard a total rather than a sample: there is no side door through which an unmetered model call can be made.")
        x0 b2y w none
  let b1y = b2.frame.top +ℤ b2.frame.height +ℤ px 60
  b1 ←
      draw_box
        (item "BOUNDARY 1 — network enforced:  THE AGENT'S MODEL ACCESS IS THE ROUTER'S"
          "Only the router-service identity holds \"Azure AI Developer\" on the Foundry project (apps/roles.tf). The lane services have no such assignment and no route to the Foundry data plane.\nThis is not a convention enforced by code review. It is the reason the cost ceiling is a control rather than a reporting feature: a ceiling services could bypass would be advisory.")
        x0 b1y w none
  let chain_y = b1.frame.top +ℤ b1.frame.height +ℤ px 60
  chain ← place_items chain_cols chain_y chain_h 0 chain_specs
  chain_arrows agent b2 b1 chain
  let det_y = chain_y +ℤ chain_h +ℤ px 70
  draw_determinism det_y
  let hitl_y = det_y +ℤ px 82 +ℤ det_h +ℤ px 30 +ℤ px 70
  draw_human hitl_y
  let fail_y = hitl_y +ℤ px 82 +ℤ hitl_h +ℤ px 30 +ℤ px 70
  draw_failures fail_y
  agent_key fail_y
  pure tt
