-- ===== src/Diagram/Pictures/RequestFlow.antt =====
-- `requestDecisionFlow`, of scripts/diagrams/diagrams.mjs: how a request becomes a decision.
pub mod Items
pub mod Layout
use foundry_capital_markets.Prelude.{◌+◌, not, none, some, [], ◌∷◌, any, codes}
use foundry_capital_markets.Prelude.Int.{ℤ, ◌+ℤ◌, ◌-ℤ◌, max_ℤ}
use foundry_capital_markets.Diagram.Metrics.{grains}
use foundry_capital_markets.Diagram.Geometry.{
  px, left_side, right_side, top_side, bottom_side, off, vertical_first, reach,
}
use foundry_capital_markets.Diagram.Scene.{Prefix}
use foundry_capital_markets.Diagram.Shapes.{Placed, box}
use foundry_capital_markets.Diagram.Arrows.{legend}
use foundry_capital_markets.Diagram.Pictures.{
  ◌>>=◌, ◌>>◌, Draw, pure, item, measure_item, group_spec, no_options, minus_px, draw_box,
  draw_group, draw_arrow, draw_header, draw_legend, place_row, nth, legend_private, legend_public,
  legend_chokepoint, place_stack,
}
use foundry_capital_markets.Diagram.Pictures.RequestFlow.Items.{
  caller_spec, steps, outcomes, persist_items,
}
use foundry_capital_markets.Diagram.Pictures.RequestFlow.Layout.{
  x0, w, col_l, col_c, col_r, top_y, outcomes_top, outcomes_group_h, persist_cols, persist_h,
}

-- The arrows.
unfoldable pub request_arrows :
    Placed
    → Placed
    → Placed
    → Placed
    → Placed
    → Placed
    → Placed
    → Placed
    → Placed
    → Placed
    → Placed
    → Placed
    → Draw (Unit {0})
request_arrows caller entry scorer gate selector invoke outcomes_group refused denied downgraded
      routed persist_group =
    do
      draw_arrow caller entry (record no_options {
        label = codes "a business\nrequest, not a\nmodel choice";
        label_width = px 190;
        label_dy = minus_px 60;
      })
      draw_arrow entry scorer (record no_options { sides = some (bottom_side, top_side) })
      draw_arrow scorer gate (record no_options {
        sides = some (bottom_side, top_side);
        label = codes "score + the FULL catalog";
        label_width = px 300;
        label_dx = px 260;
      })
      draw_arrow gate selector (record no_options {
        sides = some (bottom_side, top_side);
        label = codes "ONLY the policy-eligible candidates reach selection";
        label_width = px 460;
        label_dx = px 340;
      })
      draw_arrow selector invoke (record no_options { sides = some (bottom_side, top_side) })
      draw_arrow gate refused (record no_options {
        sides = some (right_side, left_side);
        label = codes "no eligible\ncandidate";
        label_width = px 190;
        label_dy = minus_px 46;
      })
      draw_arrow selector denied (record no_options {
        sides = some (right_side, left_side);
        label = codes "nothing\naffordable";
        label_width = px 190;
        label_dy = minus_px 46;
      })
      draw_arrow invoke downgraded (record no_options {
        sides = some (right_side, left_side);
        label = codes "chosen.Tier\n< indicated";
        label_width = px 190;
        label_dy = minus_px 46;
      })
      draw_arrow invoke routed (record no_options {
        sides = some (right_side, left_side);
        label = codes "chosen.Tier\n== indicated";
        label_width = px 190;
        label_dy = px 46;
      })
      draw_arrow invoke persist_group (record no_options {
        sides = some (bottom_side, top_side);
        label = codes "result + metrics";
        label_width = px 260;
        label_dx = minus_px 190;
      })
      draw_arrow outcomes_group persist_group (record no_options {
        sides = some (bottom_side, top_side);
        elbow = vertical_first;
        label = codes "EVERY outcome is written,\nincluding both refusals";
        label_width = px 400;
        label_dx = minus_px 230;
        label_dy = px 60;
      })

-- The legend, and the box beside it.
unfoldable pub request_key : ℤ → Draw (Unit {0})
request_key bottom_y = do
  let legend_y = bottom_y +ℤ px 82 +ℤ persist_h +ℤ px 30 +ℤ px 60
  draw_legend x0 legend_y (px 1240) (
      legend_chokepoint
      ∷ codes "Governance gate. Runs before any cost reasoning."
      ∷ legend_public
      ∷ codes "Cost control acting — a downgrade, visible and explained."
      ∷ legend_private
      ∷ [])
  _ ←
      draw_box
        (item "The test of Principle IV, stated as an experiment"
          "Two requests with byte-identical bodies, submitted under different policy sets, may execute on different vendors and both succeed.\nIf swapping a vendor requires a code change, a redeploy, or a prompt edit, the principle is violated — no matter what the diagram says.\nThe router is deterministic code and always will be: routing the thing that decides routing would be circular, and a compliance audience\nwill read this assembly line by line. It is under a 70% coverage gate for exactly that reason.")
        (x0 +ℤ px 1240 +ℤ px 60) legend_y (w -ℤ px 1240 -ℤ px 60) none
  pure tt

unfoldable pub request_decision_flow : Draw (Unit {0})
request_decision_flow = do
  draw_header x0 (px 60) w "02 · POST /v1/route — how a request becomes a governed decision"
      "Conclusion: the caller never names a model, and governance policy runs BEFORE cost and complexity selection — so a cost optimisation can never reach a model policy has not approved."
  caller ← draw_box caller_spec col_l.x top_y col_l.width none
  absent ←
      draw_box
        (item "PRINCIPLE IV — what is NOT in this request"
          "There is no \"model\" field.\nThere is no \"vendor\" field.\nThere is no \"deployment\" field.\n\nAnd there will not be one: a field that exists is a field that\neventually gets used. dataClassification states what the data IS;\nit is not a routing preference. Omitting it is a 400, never an\nassumption of \"Public\".")
        col_l.x (caller.frame.top +ℤ caller.frame.height +ℤ px 50) col_l.width none
  order_banner ←
      draw_box
        (item "THE ORDER IS LOAD-BEARING"
          "catalog → PolicyGate.Evaluate() → eligible → TierSelector.Select()\n\nPolicy decides what is PERMISSIBLE.\nThe router then decides what is APPROPRIATE among the permissible.\n\nReverse these two and a cost optimisation can reach a model\ngovernance has not approved. The order is asserted by test, not\nleft to code reading.")
        col_l.x (absent.frame.top +ℤ absent.frame.height +ℤ px 50) col_l.width none
  swap_box ←
      draw_box
        (item "Beat 5 — the swap nobody deployed for"
          "An approver toggles Anthropic off on /policy. No redeploy, no code\nchange, no prompt change. The identical request replans across the\nremaining approved vendors and the exclusion reason reads:\n\"Vendor Anthropic is not approved under policy set\n'CapitalMarkets-US'.\"\n\nSet dataClassification to Restricted and every hosted vendor is\nexcluded; execution lands on the open-weight model on managed\ncompute inside the VNet.")
        col_l.x (order_banner.frame.top +ℤ order_banner.frame.height +ℤ px 50) col_l.width none
  (centre_boxes, cy) ← place_stack col_c.x col_c.width (px 60) top_y (λ i. none) steps
  entry ← nth centre_boxes 0
  scorer ← nth centre_boxes 1
  gate ← nth centre_boxes 2
  selector ← nth centre_boxes 3
  invoke ← nth centre_boxes 4
  outcomes_group ← draw_group (
      group_spec (col_r.x -ℤ px 30) outcomes_top col_r.width outcomes_group_h
        "FOUR OUTCOMES — three of them are HTTP 200"
        "A governed \"no\" is a correct answer, not an error.")
  (outcome_boxes, below) ←
      place_stack col_r.x (col_r.width -ℤ px 60) (px 50) (outcomes_top +ℤ px 96)
        (λ i. some (measure_item i (col_r.width -ℤ px 60))) outcomes
  let oy = outcomes_top +ℤ outcomes_group_h
  refused ← nth outcome_boxes 0
  denied ← nth outcome_boxes 1
  downgraded ← nth outcome_boxes 2
  routed ← nth outcome_boxes 3
  let bottom_y = max_ℤ cy (max_ℤ oy (swap_box.frame.top +ℤ swap_box.frame.height +ℤ px 60)) +ℤ px 40
  persist_group ← draw_group (
      group_spec x0 bottom_y w (px 82 +ℤ persist_h +ℤ px 30)
        "EVERY outcome above — including both refusals — is persisted and audited"
        "A denial is never silently absorbed; it is always surfaced to the UI. Principle VI: one correlationId spans the whole lifecycle.")
  _ ← place_row persist_cols (bottom_y +ℤ px 82) persist_items
  request_arrows caller entry scorer gate selector invoke outcomes_group refused denied downgraded
      routed persist_group
  request_key bottom_y
  pure tt
